-- ===== src/Runtime/Store/Progress.antt =====
-- What `get_workflow_info` reads back of the receipts that were committed.
use homestar.Prelude.{
  ◌≡◌, refl, sym, true, Option, List, [], ◌∷◌, inl, inr, map, Bool-cases, ◌%◌, ◌^◌, length, String,
}
use mathlib.Core.Path.{subst}
use homestar.Prelude.Classes.{Eq}
use homestar.Prelude.Table.{exists, select, first_of_exists}
use homestar.Result.{ok}
use homestar.Runtime.Info.{Info, new}
use homestar.Runtime.Store.{
  StoredReceipt, Db, is_workflow, is_row, get_workflow_info, select_workflow,
}

module _ {C : Type 0} (eq : Eq C) where
  abbrev joined_to : C → List (StoredReceipt C) → List C
  joined_to w rows = map (λ row. row.receipt_cid) (select (λ row. eq.beq w row.workflow_cid) rows)

  -- A row that joins `w` and `c` puts `c` among the receipts read for `w`.
  row-selected :
      (w c : C) (rows : List (StoredReceipt C))
      → exists (is_row eq w c) rows ≡ true
      → exists (eq.beq c) (joined_to w rows) ≡ true
  unfolding exists select
  row-selected w c [] h = cc
  row-selected w c (row ∷ rows) h = elim (Bool-cases (eq.beq w row.workflow_cid)) [
    | inl e ↦ elim (Bool-cases (eq.beq c row.receipt_cid)) [
      | inl f ↦ rw (e, f) refl
      | inr f ↦ rw (e, f) (row-selected w c rows (rw (e, f) at h))
    ]
    | inr e ↦ rw e (row-selected w c rows (rw e at h))
  ]

module _ {C F P U : Type 0} (eq : Eq C) where
  -- Where workflow `w` is stored and a receipt `c` is joined to it, reading the workflow's
  -- information succeeds, for `w`, with `c` in its progress and as many steps counted as there
  -- are in the progress (modulo 2^32).
  pub get_workflow_info_lem :
      (w c : C) (db : Db C F P U)
      → exists (is_workflow eq w) db.workflows ≡ true
      → exists (is_row eq w c) db.workflows_receipts ≡ true
      → (name : Option String) × (i : Info C U) × (get_workflow_info eq w db ≡ ok (name, i))
        × (i.cid ≡ w)
        × (exists (eq.beq c) i.progress ≡ true)
        × (i.progress_count ≡ length i.progress % 2 ^ 32)
  unfolding get_workflow_info select_workflow new
  get_workflow_info_lem w c db h j =
      let (stored, found, same) = first_of_exists (is_workflow eq w) db.workflows h in
      let is_w = (eq.beq_iff w stored.cid.cid).0 same in
      (
        stored.name,
        new stored (joined_to eq stored.cid.cid db.workflows_receipts),
        rw found refl,
        sym is_w,
        subst (λ v. exists (eq.beq c) (joined_to eq v db.workflows_receipts) ≡ true) is_w
            (row-selected eq w c db.workflows_receipts j),
        refl,
      )
