-- ===== src/Runtime/Runner/Replayed.antt =====
-- The receipts of a workflow's progress that `run_worker` reports, and the replies to commands.
use homestar.Prelude.{
  ◌≡◌, refl, sym, ap, ◌∙◌, Bool, true, false, Option, none, some, List, [], ◌∷◌, map, inl, inr,
  Bool-cases, arith, if_of_true, if_of_false,
}
use homestar.Prelude.Classes.{Eq}
use homestar.Prelude.Vec.{All, All-imp}
use homestar.Prelude.Table.{select, first, exists, Unique}
use homestar.Result.{ok, ok_or, to_option}
use homestar.Foreign.{Foreign}
use homestar.Core.Pointer.{Pointer}
use homestar.Runtime.Receipt.{Receipt}
use homestar.Runtime.Resources as Index
use homestar.Runtime.Resources.Table.{beq_self, beq_eq, get-insert_self, get-insert_ne}
use homestar.Runtime.Store.{Db, is_receipt, find_receipt_by_cid, find_receipt_pointers, not_found}
use homestar.Runtime.Store.Consistent.{IsConsistent}
use homestar.Runtime.Runner.Keys.{beq_swap}
use homestar.Runtime.Runner.Launch.{receipts_by_cid, info_of, find_receipt_info_by_pointers}

module _ {C F P : Type 0} (eq : Eq C) where
  abbrev same : Receipt C F P → Receipt C F P → Bool
  same q r = eq.beq r.cid.cid q.cid.cid

  abbrev or_found : Option (Receipt C F P) → Option (Receipt C F P) → Option (Receipt C F P)
  or_found (some r) o = some r
  or_found none o = o

  or_found-none : (o : Option (Receipt C F P)) → or_found o none ≡ to_option (ok_or o not_found)
  or_found-none none = refl
  or_found-none (some r) = refl

  first_of_absent :
      (c : C) (r : Receipt C F P) (rs : List (Receipt C F P))
      → eq.beq c r.cid.cid ≡ true
      → exists (same r) rs ≡ false
      → first (is_receipt eq c) rs ≡ none
  unfolding first exists
  first_of_absent c r [] e a = refl
  first_of_absent c r (q ∷ rs) e a =
      let ne : eq.beq q.cid.cid r.cid.cid ≡ false = ground arith in
      let absent : exists (same r) rs ≡ false = ground arith in
      if_of_false _ _ _ (ap (λ x. eq.beq x q.cid.cid) (beq_eq eq e) ∙ beq_swap eq ne)
      ∙ first_of_absent c r rs e absent

  -- Where no two receipts have one CID, the last of a CID is the first.
  get-receipts_by_cid :
      (c : C) (rs : List (Receipt C F P)) (m : List (C × Receipt C F P))
      → Unique same rs
      → Index.get eq c (receipts_by_cid eq rs m)
        ≡ or_found (first (is_receipt eq c) rs) (Index.get eq c m)
  unfolding receipts_by_cid first
  get-receipts_by_cid c [] m u = refl
  get-receipts_by_cid c (r ∷ rs) m (a, u) = elim (Bool-cases (eq.beq c r.cid.cid)) [
    | inl e ↦
        get-receipts_by_cid c rs (Index.insert eq r.cid.cid r m) u
        ∙ (ap (λ o. or_found o (Index.get eq c (Index.insert eq r.cid.cid r m)))
              (first_of_absent c r rs e a)
            ∙ (ap (λ x. Index.get eq x (Index.insert eq r.cid.cid r m)) (beq_eq eq e)
                ∙ (get-insert_self eq r.cid.cid r m
                    ∙ sym (ap (λ o. or_found o (Index.get eq c m)) (if_of_true _ _ _ e)))))
    | inr e ↦
        get-receipts_by_cid c rs (Index.insert eq r.cid.cid r m) u
        ∙ (ap (or_found (first (is_receipt eq c) rs)) (get-insert_ne eq c r.cid.cid r m e)
            ∙ sym (ap (λ o. or_found o (Index.get eq c m)) (if_of_false _ _ _ e)))
  ]

  first-select :
      (c : C) (p : Receipt C F P → Bool) (rs : List (Receipt C F P))
      → ((r : Receipt C F P) → is_receipt eq c r ≡ true → p r ≡ true)
      → first (is_receipt eq c) (select p rs) ≡ first (is_receipt eq c) rs
  unfolding first select
  first-select c p [] h = refl
  first-select c p (r ∷ rs) h = elim (Bool-cases (eq.beq c r.cid.cid)) [
    | inl f ↦ rw (h r f, f) refl
    | inr f ↦ elim (Bool-cases (p r)) [
      | inl e ↦ rw (e, f) (first-select c p rs h)
      | inr e ↦ rw (e, f) (first-select c p rs h)
    ]
  ]

  exists-select :
      (p q : Receipt C F P → Bool) (rs : List (Receipt C F P))
      → exists q rs ≡ false
      → exists q (select p rs) ≡ false
  unfolding exists select
  exists-select p q [] h = refl
  exists-select p q (r ∷ rs) h = elim (Bool-cases (p r)) [
    | inl e ↦ rw e (ground (arith, exists-select p q rs))
    | inr e ↦ rw e (ground (arith, exists-select p q rs))
  ]

  Unique-select :
      (p : Receipt C F P → Bool) (rs : List (Receipt C F P))
      → Unique same rs
      → Unique same (select p rs)
  unfolding select
  Unique-select p [] u = tt
  Unique-select p (r ∷ rs) (a, u) = elim (Bool-cases (p r)) [
    | inl e ↦ rw e (exists-select p (same r) rs a, Unique-select p rs u)
    | inr e ↦ rw e (Unique-select p rs u)
  ]

module _ {C : Type 0} (eq : Eq C) where
  abbrev names : List (Pointer C) → C → Bool
  names ps c = exists (λ p. eq.beq p.cid c) ps

  names_self : (ps : List (Pointer C)) → All (λ p. names ps p.cid ≡ true) ps
  unfolding exists
  names_self [] = tt
  names_self (p ∷ ps) =
      (ground (arith, beq_self eq p.cid), All-imp _ _ ps (λ q h. ground arith) (names_self ps))

map_of_all :
    {A B : Type 0} (f g : A → B) (P : A → Type 0) (xs : List A)
    → ((x : A) → P x → f x ≡ g x)
    → All P xs
    → map f xs ≡ map g xs
map_of_all f g P [] h ps = refl
map_of_all f g P (x ∷ xs) h (p, ps) = cc (h x p, map_of_all f g P xs h ps)

module _ {C F P U : Type 0} (e : Foreign C F P U) (eq : Eq C) where
  -- In a database that can be queried and whose primary keys are unique, the receipts that are
  -- reported for a batch of pointers are, in the order of the pointers, those that each pointer
  -- finds by itself, and nothing where it finds none.
  pub find_receipt_info_by_pointers-find_receipt_by_cid :
      (ps : List (Pointer C)) (db : Db C F P U)
      → IsConsistent eq db
      → find_receipt_info_by_pointers e eq ps (ok db)
        ≡ ok (map (λ p. info_of e eq p.cid (to_option (find_receipt_by_cid eq p.cid db))) ps)
  unfolding find_receipt_info_by_pointers find_receipt_pointers find_receipt_by_cid select Index.get
  find_receipt_info_by_pointers-find_receipt_by_cid ps db h = ap ok (
      map_of_all _ _ (λ p. names eq ps p.cid ≡ true) ps
        (λ x n. ap (info_of e eq x.cid) (
          get-receipts_by_cid eq x.cid (find_receipt_pointers eq ps db) []
            (Unique-select eq _ db.receipts h.receipts)
          ∙ (ap (λ o. or_found eq o none)
                (first-select eq x.cid (λ r. names eq ps r.cid.cid) db.receipts
                  (λ r f. ap (names eq ps) (sym (beq_eq eq f)) ∙ n))
              ∙ or_found-none eq (first (is_receipt eq x.cid) db.receipts))))
        (names_self eq ps))
