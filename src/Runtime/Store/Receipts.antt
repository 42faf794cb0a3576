-- ===== src/Runtime/Store/Receipts.antt =====
-- Receipts that are stored, and found again by their CID.
use homestar.Prelude.{
  ℕ, ◌+◌, ◌≡◌, refl, Bool, true, false, Option, none, some, List, [], ◌∷◌, ◌++◌, arith, inl, inr,
  Bool-cases, Option-cases, length, length-append, if◌then◌else◌,
}
use homestar.Prelude.Classes.{Eq}
use homestar.Prelude.Vec.{All}
use homestar.Prelude.Table.{exists, first, exists-append}
use homestar.Result.{Result, ok, err, ok_or}
use homestar.Runtime.Receipt.{Receipt}
use homestar.Runtime.Store.{
  StoreError, not_found, Db, is_receipt, store_receipt, store_receipts, count_stored,
  find_receipt_by_cid,
}

module _ {A : Type 0} (p : A → Bool) where
  abbrev found_or : Option A → A → Option A
  found_or (some y) x = some y
  found_or none x = if p x then some x else none

  first-append : (xs : List A) (x : A) → first p (xs ++ x ∷ []) ≡ found_or (first p xs) x
  unfolding first
  first-append [] x = refl
  first-append (y ∷ ys) x = elim (Bool-cases (p y)) [
    | inl e ↦ rw e refl
    | inr e ↦ rw e (first-append ys x)
  ]

  first_of_none : (xs : List A) → first p xs ≡ none → exists p xs ≡ false
  unfolding first exists
  first_of_none [] h = refl
  first_of_none (y ∷ ys) h = elim (Bool-cases (p y)) [
    | inl e ↦ absurd (cc (rw e at h))
    | inr e ↦ rw e (first_of_none ys (rw e at h))
  ]

module _ {C F P : Type 0} (eq : Eq C) where
  -- what is found after `r` was stored, from what was found before
  abbrev pub found_after :
      C → Receipt C F P → Result StoreError (Receipt C F P) → Result StoreError (Receipt C F P)
  found_after c r (ok q) = ok q
  found_after c r (err e) = if is_receipt eq c r then ok r else err e

  conflict :
      (r : Receipt C F P) (rs : List (Receipt C F P)) (c : C)
      → exists (is_receipt eq r.cid.cid) rs ≡ true
      → ok_or (first (is_receipt eq c) rs) not_found
        ≡ found_after c r (ok_or (first (is_receipt eq c) rs) not_found)
  conflict r rs c e = elim (Option-cases (first (is_receipt eq c) rs)) [
    | inr (q, f) ↦ rw f refl
    | inl f ↦ elim (Bool-cases (is_receipt eq c r)) [
      | inr g ↦ rw (f, g) refl
      | inl g ↦ absurd (cc (e, first_of_none (is_receipt eq c) rs f, (eq.beq_iff c r.cid.cid).0 g))
    ]
  ]

  inserted :
      (r : Receipt C F P) (c : C) (o : Option (Receipt C F P))
      → ok_or (found_or (is_receipt eq c) o r) not_found ≡ found_after c r (ok_or o not_found)
  inserted r c (some q) = refl
  inserted r c none = elim (Bool-cases (is_receipt eq c r)) [
    | inl e ↦ rw e refl
    | inr e ↦ rw e refl
  ]

module _ {C F P U : Type 0} (eq : Eq C) where
  -- The first receipt stored under a CID stays: after `r` is stored, a CID finds the receipt
  -- that it found before, and where it found none, it finds `r` if it is the CID of `r`, and
  -- none if not.
  pub find_receipt_by_cid-store_receipt :
      (r : Receipt C F P) (c : C) (db : Db C F P U)
      → find_receipt_by_cid eq c (store_receipt eq r db).1
        ≡ found_after eq c r (find_receipt_by_cid eq c db)
  unfolding find_receipt_by_cid store_receipt
  find_receipt_by_cid-store_receipt r c db =
      elim (Bool-cases (exists (is_receipt eq r.cid.cid) db.receipts)) [
        | inl e ↦ rw e (conflict eq r db.receipts c e)
        | inr e ↦
            rw (e, first-append (is_receipt eq c) db.receipts r)
              (inserted eq r c (first (is_receipt eq c) db.receipts))
      ]

  stays :
      (r : Receipt C F P) (db : Db C F P U) (p : Receipt C F P → Bool)
      → exists p db.receipts ≡ true
      → exists p (store_receipt eq r db).1.receipts ≡ true
  unfolding store_receipt
  stays r db p h = elim (Bool-cases (exists (is_receipt eq r.cid.cid) db.receipts)) [
    | inl e ↦ rw e h
    | inr e ↦ rw e (ground (arith, exists-append p db.receipts (r ∷ [])))
  ]

  all_stays :
      (acc : ℕ) (rs : List (Receipt C F P)) (db : Db C F P U) (p : Receipt C F P → Bool)
      → exists p db.receipts ≡ true
      → exists p (store_receipts eq acc rs db).1.receipts ≡ true
  unfolding store_receipts
  all_stays acc [] db p h = h
  all_stays acc (r ∷ rs) db p h =
      let (stored, db') = store_receipt eq r db in
      all_stays (acc + count_stored stored) rs db' p (stays r db p h)

  stored_one :
      (r : Receipt C F P) (db : Db C F P U)
      → let (stored, after) = store_receipt eq r db in
        (exists (is_receipt eq r.cid.cid) after.receipts ≡ true)
        × (count_stored stored + length db.receipts ≡ length after.receipts)
  unfolding store_receipt exists
  stored_one r db = elim (Bool-cases (exists (is_receipt eq r.cid.cid) db.receipts)) [
    | inl e ↦ rw e (e, omega arith)
    | inr e ↦ rw e (
      ground (
        arith,
        exists-append (is_receipt eq r.cid.cid) db.receipts (r ∷ []),
        (eq.beq_iff r.cid.cid r.cid.cid).1 refl,
      ),
      omega (arith, length-append db.receipts (r ∷ [])),
    )
  ]

  -- `store_receipts` leaves a receipt stored under the CID of each receipt that is given, and
  -- counts exactly the rows by which the table grows.
  pub store_receipts_lem :
      (acc : ℕ) (rs : List (Receipt C F P)) (db : Db C F P U)
      → let (n, after) = store_receipts eq acc rs db in
        (n + length db.receipts ≡ acc + length after.receipts)
        × All (λ r. exists (is_receipt eq r.cid.cid) after.receipts ≡ true) rs
  unfolding store_receipts
  store_receipts_lem acc [] db = (refl, tt)
  store_receipts_lem acc (r ∷ rs) db =
      let (stored, db') = store_receipt eq r db in
      let (here, grows) = stored_one r db in
      let (count, rest) = store_receipts_lem (acc + count_stored stored) rs db' in
      (
        omega arith,
        (all_stays (acc + count_stored stored) rs db' (is_receipt eq r.cid.cid) here, rest),
      )
