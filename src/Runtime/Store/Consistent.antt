-- ===== src/Runtime/Store/Consistent.antt =====
-- Keys and references of the tables, and that the operations keep them.
use homestar.Prelude.{
  ℕ, ◌+◌, ◌≡◌, Bool, true, List, [], ◌∷◌, ◌++◌, ◌&&◌, arith, inl, inr, Bool-cases,
}
use homestar.Prelude.Vec.{All, All-append, All-imp}
use homestar.Prelude.Classes.{Eq}
use homestar.Prelude.Table.{exists, exists-append, Unique, Unique-append}
use homestar.Result.{Result, ok, err}
use homestar.Runtime.Receipt.{Receipt}
use homestar.Runtime.Info.{Stored}
use homestar.Runtime.Store.{
  StoreError, StoredReceipt, Db, is_receipt, is_workflow, is_row, store_receipt, store_workflow,
  store_workflow_receipt, store_workflow_receipts, next_row, commit_receipt, transaction_end,
}

and_left : (a b : Bool) → (a && b) ≡ true → a ≡ true
and_left a b h = ground arith

and_right : (a b : Bool) → (a && b) ≡ true → b ≡ true
and_right a b h = ground arith

still_exists :
    {A : Type 0} (p : A → Bool) (xs ys : List A) → exists p xs ≡ true → exists p (xs ++ ys) ≡ true
still_exists p xs ys h = ground (arith, exists-append p xs ys)

module _ {C F P U : Type 0} (eq : Eq C) where
  -- A row that joins a workflow and a receipt names stored ones.
  abbrev pub IsJoined : List (Stored C U) → List (Receipt C F P) → StoredReceipt C → Type 0
  IsJoined ws rs row =
      (exists (is_workflow eq row.workflow_cid) ws ≡ true)
      × (exists (is_receipt eq row.receipt_cid) rs ≡ true)

  -- Primary keys are unique, and the rows that join a workflow and a receipt name stored ones.
  pub record IsConsistent (db : Db C F P U) : Type 0 where
    pub workflows : Unique (λ v w. eq.beq w.cid.cid v.cid.cid) db.workflows
    pub receipts : Unique (λ q r. eq.beq r.cid.cid q.cid.cid) db.receipts
    pub rows : Unique (λ a b. is_row eq b.workflow_cid b.receipt_cid a) db.workflows_receipts
    pub joined : All (IsJoined db.workflows db.receipts) db.workflows_receipts

  store_receipt-IsConsistent :
      (r : Receipt C F P) (db : Db C F P U)
      → IsConsistent db
      → IsConsistent (store_receipt eq r db).1
  unfolding store_receipt
  store_receipt-IsConsistent r db h =
      elim (Bool-cases (exists (is_receipt eq r.cid.cid) db.receipts)) [
        | inl e ↦ rw e h
        | inr e ↦ rw e (record {
          workflows = h.workflows;
          receipts = Unique-append _ db.receipts r h.receipts e;
          rows = h.rows;
          joined =
              All-imp _ (IsJoined db.workflows (db.receipts ++ r ∷ [])) db.workflows_receipts
                (λ row j. (j.0, still_exists _ db.receipts (r ∷ []) j.1)) h.joined;
        })
      ]

  -- Storing a workflow keeps the tables consistent.
  pub store_workflow-IsConsistent :
      (w : Stored C U) (db : Db C F P U) → IsConsistent db → IsConsistent (store_workflow eq w db).1
  unfolding store_workflow
  store_workflow-IsConsistent w db h =
      elim (Bool-cases (exists (is_workflow eq w.cid.cid) db.workflows)) [
        | inl e ↦ rw e h
        | inr e ↦ rw e (record {
          workflows = Unique-append _ db.workflows w h.workflows e;
          receipts = h.receipts;
          rows = h.rows;
          joined =
              All-imp _ (IsJoined (db.workflows ++ w ∷ []) db.receipts) db.workflows_receipts
                (λ row j. (still_exists _ db.workflows (w ∷ []) j.0, j.1)) h.joined;
        })
      ]

  -- A result of the database that keeps its tables consistent, if they were before.
  Keeps : {A : Type 0} → Db C F P U → Result StoreError (A × Db C F P U) → Type 0
  Keeps before (ok (_, db)) = IsConsistent db
  Keeps before (err e) = Unit

  row-IsConsistent :
      (w c : C) (db : Db C F P U) → IsConsistent db → Keeps db (store_workflow_receipt eq w c db)
  unfolding store_workflow_receipt Keeps
  row-IsConsistent w c db h = elim (Bool-cases (exists (is_row eq w c) db.workflows_receipts)) [
    | inl e ↦ rw e h
    | inr e ↦
        elim (Bool-cases
          (exists (is_workflow eq w) db.workflows && exists (is_receipt eq c) db.receipts)) [
            | inr f ↦ rw (e, f) tt
            | inl f ↦
                rw (e, f)
                  (record {
                    workflows = h.workflows;
                    receipts = h.receipts;
                    rows = Unique-append _ db.workflows_receipts _ h.rows e;
                    joined =
                        All-append (IsJoined db.workflows db.receipts) db.workflows_receipts _
                          h.joined ((and_left _ _ f, and_right _ _ f), tt);
                  })
          ]
  ]

  transaction_end-IsConsistent :
      (kept : Receipt C F P) (before db : Db C F P U) (row : Result StoreError (ℕ × Db C F P U))
      → IsConsistent before
      → Keeps db row
      → IsConsistent (transaction_end kept before row).1
  unfolding transaction_end Keeps
  transaction_end-IsConsistent kept before db (ok (n, joined)) h k = k
  transaction_end-IsConsistent kept before db (err e) h k = h

  -- Committing a receipt keeps the tables consistent, whether it succeeds or is rolled back.
  pub commit_receipt-IsConsistent :
      (w : C) (r : Receipt C F P) (db : Db C F P U)
      → IsConsistent db
      → IsConsistent (commit_receipt eq w r db).1
  unfolding commit_receipt
  commit_receipt-IsConsistent w r db h =
      let stored = (store_receipt eq r db).1 in
      transaction_end-IsConsistent _ db stored _ h
        (row-IsConsistent w _ stored (store_receipt-IsConsistent r db h))

  next_row-IsConsistent :
      (db : Db C F P U) (rest : ℕ → Db C F P U → Result StoreError ℕ × Db C F P U)
      (row : Result StoreError (ℕ × Db C F P U))
      → IsConsistent db
      → Keeps db row
      → ((n : ℕ) (joined : Db C F P U) → IsConsistent joined → IsConsistent (rest n joined).1)
      → IsConsistent (next_row db rest row).1
  unfolding next_row Keeps
  next_row-IsConsistent db rest (ok (n, joined)) h k ih = ih n joined k
  next_row-IsConsistent db rest (err e) h k ih = h

  -- Joining any receipts to a workflow keeps the tables consistent, also where it ends in an
  -- error halfway.
  pub store_workflow_receipts-IsConsistent :
      (w : C) (acc : ℕ) (cs : List C) (db : Db C F P U)
      → IsConsistent db
      → IsConsistent (store_workflow_receipts eq w acc cs db).1
  unfolding store_workflow_receipts
  store_workflow_receipts-IsConsistent w acc [] db h = h
  store_workflow_receipts-IsConsistent w acc (c ∷ cs) db h =
      next_row-IsConsistent db _ (store_workflow_receipt eq w c db) h (row-IsConsistent w c db h)
        (λ n joined k. store_workflow_receipts-IsConsistent w (acc + n) cs joined k)
