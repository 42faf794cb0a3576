-- ===== src/Runtime/Store/Commit.antt =====
-- What committing a receipt does, and what can be read back.
use homestar.Prelude.{
  ◌≡◌, refl, ap, ◌⊎◌, Bool, true, false, List, [], ◌∷◌, ◌++◌, arith, inl, inr, Bool-cases,
}
use homestar.Prelude.Classes.{Eq}
use homestar.Prelude.Vec.{All}
use homestar.Prelude.Table.{exists, exists-append}
use homestar.Result.{ok, err}
use homestar.Runtime.Receipt.{Receipt}
use homestar.Runtime.Info.{Stored}
use homestar.Runtime.Store.{
  foreign_key_violation, StoredReceipt, Db, is_receipt, is_workflow, is_row, store_receipt,
  store_workflow_receipt, commit_receipt, transaction_end,
}
use homestar.Runtime.Store.Consistent.{IsConsistent, IsJoined}

eq_self : {C : Type 0} (eq : Eq C) (c : C) → eq.beq c c ≡ true
eq_self eq c = (eq.beq_iff c c).1 refl

pub exists-snoc :
    {A : Type 0} (p : A → Bool) (xs : List A) (x : A) → p x ≡ true → exists p (xs ++ x ∷ []) ≡ true
unfolding exists
exists-snoc p xs x h = ground (arith, exists-append p xs (x ∷ []))

module _ {C F P U : Type 0} (eq : Eq C) where
  -- The workflow of a row is stored.
  joined_workflow :
      (w c : C) (ws : List (Stored C U)) (rs : List (Receipt C F P)) (rows : List (StoredReceipt C))
      → All (IsJoined eq ws rs) rows
      → exists (is_row eq w c) rows ≡ true
      → exists (is_workflow eq w) ws ≡ true
  unfolding exists
  joined_workflow w c ws rs [] h e = cc
  joined_workflow w c ws rs (row ∷ rows) (j, h) e = elim (Bool-cases (is_row eq w c row)) [
    | inl t ↦ rw ((eq.beq_iff w row.workflow_cid).0 (ground arith)) j.0
    | inr f ↦ joined_workflow w c ws rs rows h (rw f at e)
  ]

  -- `r` is stored and joined to workflow `w`.
  abbrev pub IsCommitted : C → Receipt C F P → Db C F P U → Type 0
  IsCommitted w r db =
      (exists (is_receipt eq r.cid.cid) db.receipts ≡ true)
      × (exists (is_row eq w r.cid.cid) db.workflows_receipts ≡ true)

  -- Committing a committed receipt again changes nothing and succeeds.
  commit_again :
      (w : C) (r : Receipt C F P) (db : Db C F P U)
      → IsCommitted w r db
      → commit_receipt eq w r db ≡ (ok r, db)
  unfolding commit_receipt
  commit_again w r db (a, b) = rw (a, b)

  no_row :
      (w c : C) (db : Db C F P U)
      → IsConsistent eq db
      → exists (is_workflow eq w) db.workflows ≡ false
      → exists (is_row eq w c) db.workflows_receipts ≡ false
  no_row w c db h e = elim (Bool-cases (exists (is_row eq w c) db.workflows_receipts)) [
    | inl t ↦
        ground
          (arith, joined_workflow w c db.workflows db.receipts db.workflows_receipts h.joined t)
    | inr f ↦ f
  ]

  pub snoc_receipt :
      (r : Receipt C F P) (db : Db C F P U)
      → exists (is_receipt eq r.cid.cid) (db.receipts ++ r ∷ []) ≡ true
  snoc_receipt r db = exists-snoc _ db.receipts r (eq_self eq r.cid.cid)

  pub rolled_back :
      (w : C) (r : Receipt C F P) (db : Db C F P U)
      → IsConsistent eq db
      → exists (is_workflow eq w) db.workflows ≡ false
      → commit_receipt eq w r db ≡ (err foreign_key_violation, db)
  unfolding commit_receipt store_receipt store_workflow_receipt transaction_end
  rolled_back w r db h e = elim (Bool-cases (exists (is_receipt eq r.cid.cid) db.receipts)) [
    | inl t ↦ rw (t, no_row w r.cid.cid db h e, e) refl
    | inr f ↦ rw (f, no_row w r.cid.cid db h e, e) refl
  ]

  pub committed :
      (w : C) (r : Receipt C F P) (db : Db C F P U)
      → exists (is_workflow eq w) db.workflows ≡ true
      → let (result, after) = commit_receipt eq w r db in (result ≡ ok r) × IsCommitted w r after
  unfolding commit_receipt store_receipt store_workflow_receipt transaction_end
  committed w r db e = elim (Bool-cases (exists (is_receipt eq r.cid.cid) db.receipts)) [
    | inl t ↦ elim (Bool-cases (exists (is_row eq w r.cid.cid) db.workflows_receipts)) [
      | inl u ↦ rw (t, u) (refl, (t, u))
      | inr v ↦
          rw (t, v, e, t)
            (refl, (t, exists-snoc _ _ _ (rw (eq_self eq w, eq_self eq r.cid.cid) refl)))
    ]
    | inr f ↦ elim (Bool-cases (exists (is_row eq w r.cid.cid) db.workflows_receipts)) [
      | inl u ↦ rw (f, u) (refl, (snoc_receipt r db, u))
      | inr v ↦
          rw (f, v, e, snoc_receipt r db)
            (
              refl,
              (snoc_receipt r db, exists-snoc _ _ _ (rw (eq_self eq w, eq_self eq r.cid.cid) refl)),
            )
    ]
  ]

  -- On consistent tables, committing a receipt `r` to a workflow `w` that is stored succeeds
  -- with `r` and leaves `r` stored and joined to `w`; if `w` is not stored, it fails with a
  -- foreign-key violation and leaves the tables as they were.
  pub commit_receipt_lem :
      (w : C) (r : Receipt C F P) (db : Db C F P U)
      → IsConsistent eq db
      → let (result, after) = commit_receipt eq w r db in
        ((exists (is_workflow eq w) db.workflows ≡ true) × (result ≡ ok r) × IsCommitted w r after)
        ⊎ ((exists (is_workflow eq w) db.workflows ≡ false)
            × (result ≡ err foreign_key_violation)
            × (after ≡ db))
  commit_receipt_lem w r db h = elim (Bool-cases (exists (is_workflow eq w) db.workflows)) [
    | inl e ↦ let (a, b) = committed w r db e in inl (e, a, b)
    | inr e ↦
        inr (e, ap (λ p. p.0) (rolled_back w r db h e), ap (λ p. p.1) (rolled_back w r db h e))
  ]

  -- Once a receipt is committed to a stored workflow, committing it there again succeeds with
  -- the same receipt and changes nothing.
  pub commit_receipt-idempotent :
      (w : C) (r : Receipt C F P) (db : Db C F P U)
      → exists (is_workflow eq w) db.workflows ≡ true
      → let after = (commit_receipt eq w r db).1 in commit_receipt eq w r after ≡ (ok r, after)
  commit_receipt-idempotent w r db e = commit_again w r _ (committed w r db e).1
