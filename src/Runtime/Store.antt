-- ===== src/Runtime/Store.antt =====
-- homestar-runtime/src/db.rs and its tables (homestar-runtime/migrations). A table is the list of its
-- rows in the order of their insertion; `ON CONFLICT .. DO NOTHING`, the foreign keys (which PRAGMAS
-- turns on) and the rollback of a transaction are those of SQLite. Failures of the connection itself
-- are not modelled.
pub mod Consistent
pub mod Commit
pub mod Kept
pub mod Progress
pub mod Receipts
pub mod View
use homestar.Prelude.{
  ℕ, zero, ◌+◌, ◌<◌, String, Bool, true, false, Option, none, some, List, [], ◌∷◌, ◌++◌, map, ◌&&◌,
  ltb, if◌then◌else◌,
}
use homestar.Prelude.Classes.{Eq}
use homestar.Prelude.Table.{select, first, exists}
use homestar.Result.{Result, ok, err, ok_or, ◌>>=◌}
use homestar.Core.Pointer.{Pointer}
use homestar.Runtime.Receipt.{Receipt}
use homestar.Runtime.Info.{Stored, Info, new}

-- `diesel::result::Error`
pub data StoreError : Type 0 where
  not_found foreign_key_violation : StoreError

-- A row of `workflows_receipts`.
pub record StoredReceipt (C : Type 0) : Type 0 where
  pub workflow_cid : C
  pub receipt_cid : C

pub record Db (C F P U : Type 0) : Type 0 where
  pub workflows : List (Stored C U)
  pub receipts : List (Receipt C F P)
  pub workflows_receipts : List (StoredReceipt C)

abbrev pub is_receipt : {C F P : Type 0} → Eq C → C → Receipt C F P → Bool
is_receipt eq c r = eq.beq c r.cid.cid

abbrev pub is_workflow : {C U : Type 0} → Eq C → C → Stored C U → Bool
is_workflow eq c w = eq.beq c w.cid.cid

abbrev pub is_row : {C : Type 0} → Eq C → C → C → StoredReceipt C → Bool
is_row eq w r row = eq.beq w row.workflow_cid && eq.beq r row.receipt_cid

abbrev pub count_stored {ℓ} : {A : Type ℓ} → Option A → ℕ
count_stored none = 0
count_stored (some _) = 1

-- `returned` if it was stored, else the receipt that was given
abbrev pub returned_or {ℓ} : {A : Type ℓ} → Option A → A → A
returned_or none r = r
returned_or (some returned) r = returned

-- the end of the transaction: it is rolled back on an error
unfoldable pub transaction_end :
    {C F P U : Type 0}
    → Receipt C F P
    → Db C F P U
    → Result StoreError (ℕ × Db C F P U)
    → Result StoreError (Receipt C F P) × Db C F P U
transaction_end kept before (ok (_, joined)) = (ok kept, joined)
transaction_end kept before (err e) = (err e, before)

-- `try_fold`'s next round, or its end on an error; what was inserted before stays
unfoldable pub next_row :
    {C F P U : Type 0}
    → Db C F P U
    → (ℕ → Db C F P U → Result StoreError ℕ × Db C F P U)
    → Result StoreError (ℕ × Db C F P U)
    → Result StoreError ℕ × Db C F P U
next_row db rest (ok (n, joined)) = rest n joined
next_row db rest (err e) = (err e, db)

module _ {C F P U : Type 0} (eq : Eq C) where
  -- `store_receipt`: the receipt, if it was inserted
  unfoldable pub store_receipt : Receipt C F P → Db C F P U → Option (Receipt C F P) × Db C F P U
  store_receipt r db =
      if exists (is_receipt eq r.cid.cid) db.receipts
      then (none, db)
      else (some r, record db { receipts = db.receipts ++ r ∷ [] })

  -- `store_receipts`: the number of receipts that were inserted
  unfoldable pub store_receipts : ℕ → List (Receipt C F P) → Db C F P U → ℕ × Db C F P U
  unfolding store_receipt
  store_receipts acc [] db = (acc, db)
  store_receipts acc (r ∷ rs) db =
      let (stored, db') = store_receipt r db in store_receipts (acc + count_stored stored) rs db'

  -- `find_instruction_pointers`
  unfoldable pub find_instruction_pointers : List (Pointer C) → Db C F P U → List (Receipt C F P)
  find_instruction_pointers ptrs db =
      select (λ r. exists (λ p. eq.beq p.cid r.instruction.cid) ptrs) db.receipts

  -- `find_instruction_by_cid`
  unfoldable pub find_instruction_by_cid : C → Db C F P U → Result StoreError (Receipt C F P)
  find_instruction_by_cid c db =
      ok_or (first (λ r. eq.beq c r.instruction.cid) db.receipts) not_found

  -- `find_receipt_by_cid`
  unfoldable pub find_receipt_by_cid : C → Db C F P U → Result StoreError (Receipt C F P)
  find_receipt_by_cid c db = ok_or (first (is_receipt eq c) db.receipts) not_found

  -- `find_receipt_pointers`
  unfoldable pub find_receipt_pointers : List (Pointer C) → Db C F P U → List (Receipt C F P)
  find_receipt_pointers ptrs db =
      select (λ r. exists (λ p. eq.beq p.cid r.cid.cid) ptrs) db.receipts

  -- `store_workflow`: the workflow that was given, whether it was inserted or not
  unfoldable pub store_workflow : Stored C U → Db C F P U → Stored C U × Db C F P U
  store_workflow w db =
      if exists (is_workflow eq w.cid.cid) db.workflows
      then (w, db)
      else (w, record db { workflows = db.workflows ++ w ∷ [] })

  -- `store_workflow_receipt`: the number of rows inserted
  unfoldable pub store_workflow_receipt : C → C → Db C F P U → Result StoreError (ℕ × Db C F P U)
  store_workflow_receipt w r db =
      if exists (is_row eq w r) db.workflows_receipts
      then ok (0, db)
      else if exists (is_workflow eq w) db.workflows && exists (is_receipt eq r) db.receipts
      then ok (
        1,
        record db {
          workflows_receipts =
              db.workflows_receipts ++ record { workflow_cid = w; receipt_cid = r } ∷ [];
        },
      )
      else err foreign_key_violation

  -- `store_workflow_receipts`: the number of rows inserted
  unfoldable pub store_workflow_receipts :
      C → ℕ → List C → Db C F P U → Result StoreError ℕ × Db C F P U
  unfolding store_workflow_receipt next_row
  store_workflow_receipts w acc [] db = (ok acc, db)
  store_workflow_receipts w acc (r ∷ rs) db =
      next_row db (λ n joined. store_workflow_receipts w (acc + n) rs joined)
        (store_workflow_receipt w r db)

  -- `commit_receipt`
  unfoldable pub commit_receipt :
      C → Receipt C F P → Db C F P U → Result StoreError (Receipt C F P) × Db C F P U
  unfolding store_receipt store_workflow_receipt transaction_end
  commit_receipt w r db =
      let (returned, stored) = store_receipt r db in
      let kept = returned_or returned r in
      transaction_end kept db (store_workflow_receipt w kept.cid.cid stored)

  -- `select_workflow`
  unfoldable pub select_workflow : C → Db C F P U → Result StoreError (Stored C U)
  select_workflow c db = ok_or (first (is_workflow eq c) db.workflows) not_found

  -- `get_workflow_info`
  unfoldable pub get_workflow_info : C → Db C F P U → Result StoreError (Option String × Info C U)
  unfolding select_workflow
  get_workflow_info c db = do
    w ← select_workflow c db
    ok (
      w.name,
      new w (
          map (λ row. row.receipt_cid)
            (select (λ row. eq.beq w.cid.cid row.workflow_cid) db.workflows_receipts)),
    )

-- `update_local_name`, at the time `now`: the update's only condition is on `created_at`.
unfoldable pub update_local_name : {C F P U : Type 0} → String → ℕ → Db C F P U → Db C F P U
update_local_name name now db = record db {
  workflows =
      map (λ w. if ltb w.created_at now then record w { name = some name } else w) db.workflows;
}
