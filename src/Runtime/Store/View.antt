-- ===== src/Runtime/Store/View.antt =====
-- The tables as what they promise: which receipts are stored, and to which workflows they are joined.
-- The order of the rows, and their other columns, are forgotten.
use homestar.Prelude.{
  ◌≡◌, refl, ap, ◌∙◌, Bool, true, false, ◌&&◌, ◌||◌, List, [], ◌∷◌, ◌++◌, if◌then◌else◌, inl, inr,
  Bool-cases,
}
use mathlib.Core.Path.{fun_ext, ap₂}
use homestar.Prelude.Classes.{Eq}
use homestar.Prelude.Table.{exists, exists-append}
use homestar.Runtime.Receipt.{Receipt}
use homestar.Runtime.Resources.Table.{beq_eq}
use homestar.Runtime.Store.{
  Db, StoredReceipt, is_receipt, is_workflow, is_row, store_receipt, store_workflow_receipt,
  commit_receipt, transaction_end,
}
use homestar.Runtime.Store.Consistent.{IsConsistent}
use homestar.Runtime.Store.Commit.{rolled_back, snoc_receipt}

pub record View (C : Type 0) : Type 0 where
  pub workflows : C → Bool
  pub receipts : C → Bool
  pub rows : C → C → Bool

-- `c` is added to a set, by its test
abbrev pub added : {A : Type 0} → (A → Bool) → (A → Bool) → A → Bool
added is_new p d = is_new d || p d

module _ {C : Type 0} (eq : Eq C) where
  abbrev pub is_pair : C → C → C → C → Bool
  is_pair w c x d = eq.beq x w && eq.beq d c

  -- what a commit does: where the workflow is stored, the receipt enters both sets
  pub commit_view : C → C → View C → View C
  commit_view w c v =
      if v.workflows w
      then record {
        workflows = v.workflows;
        receipts = λ d. eq.beq d c || v.receipts d;
        rows = λ x d. is_pair w c x d || v.rows x d;
      }
      else v

  module _ {F P U : Type 0} where
    abbrev pub view : Db C F P U → View C
    view db = record {
      workflows = λ c. exists (is_workflow eq c) db.workflows;
      receipts = λ c. exists (is_receipt eq c) db.receipts;
      rows = λ w c. exists (is_row eq w c) db.workflows_receipts;
    }

or_last : (a b : Bool) → (a || (b || false)) ≡ (b || a)
or_last true true = refl
or_last true false = refl
or_last false true = refl
or_last false false = refl

module _ {C : Type 0} (eq : Eq C) where
  absorb : (P : C → Bool) (c : C) → P c ≡ true → P ≡ (λ d. eq.beq d c || P d)
  absorb P c h = fun_ext (λ d. elim (Bool-cases (eq.beq d c)) [
    | inl e ↦ rw e (ap P (beq_eq eq e) ∙ h)
    | inr e ↦ rw e refl
  ])

  absorb_pair :
      (P : C → C → Bool) (w c : C) → P w c ≡ true → P ≡ (λ x d. is_pair eq w c x d || P x d)
  absorb_pair P w c h = fun_ext (λ x. fun_ext (λ d. elim (Bool-cases (eq.beq x w)) [
    | inl e ↦ rw e (ap (λ f. f d) (absorb (P x) c (ap (λ y. P y c) (beq_eq eq e) ∙ h)))
    | inr e ↦ rw e refl
  ]))

  row : C → C → StoredReceipt C
  row w c = record { workflow_cid = w; receipt_cid = c }

  append_row :
      (w c : C) (rows : List (StoredReceipt C))
      → ◌≡◌ {A = C → C → Bool}
          (λ x d.
            exists
              (is_row eq x d)
              (if exists (is_row eq w c) rows then rows else rows ++ row w c ∷ []))
          (λ x d. is_pair eq w c x d || exists (is_row eq x d) rows)
  unfolding row exists
  append_row w c rows = elim (Bool-cases (exists (is_row eq w c) rows)) [
    | inl e ↦ rw e (absorb_pair (λ x d. exists (is_row eq x d) rows) w c e)
    | inr e ↦ rw e (
        fun_ext (λ x. fun_ext (λ d.
          exists-append (is_row eq x d) rows (row w c ∷ [])
          ∙ or_last (exists (is_row eq x d) rows) (is_pair eq w c x d))))
  ]

  module _ {F P : Type 0} where
    append_receipt :
        (r : Receipt C F P) (rs : List (Receipt C F P))
        → ◌≡◌ {A = C → Bool}
            (λ d.
              exists
                (is_receipt eq d)
                (if exists (is_receipt eq r.cid.cid) rs then rs else rs ++ r ∷ []))
            (λ d. eq.beq d r.cid.cid || exists (is_receipt eq d) rs)
    unfolding exists
    append_receipt r rs = elim (Bool-cases (exists (is_receipt eq r.cid.cid) rs)) [
      | inl e ↦ rw e (absorb (λ d. exists (is_receipt eq d) rs) r.cid.cid e)
      | inr e ↦ rw e (
          fun_ext (λ d.
            exists-append (is_receipt eq d) rs (r ∷ [])
            ∙ or_last (exists (is_receipt eq d) rs) (eq.beq d r.cid.cid)))
    ]

  module _ {F P U : Type 0} where
    -- the tables after a commit to a workflow that is stored
    after_commit :
        (w : C) (r : Receipt C F P) (db : Db C F P U)
        → exists (is_workflow eq w) db.workflows ≡ true
        → (commit_receipt eq w r db).1 ≡ record {
          workflows = db.workflows;
          receipts =
              if exists (is_receipt eq r.cid.cid) db.receipts
              then db.receipts
              else db.receipts ++ r ∷ [];
          workflows_receipts =
              if exists (is_row eq w r.cid.cid) db.workflows_receipts
              then db.workflows_receipts
              else db.workflows_receipts ++ row w r.cid.cid ∷ [];
        }
    unfolding row commit_receipt store_receipt store_workflow_receipt transaction_end
    after_commit w r db e = elim (Bool-cases (exists (is_receipt eq r.cid.cid) db.receipts)) [
      | inl t ↦ elim (Bool-cases (exists (is_row eq w r.cid.cid) db.workflows_receipts)) [
        | inl u ↦ rw (t, u) refl
        | inr v ↦ rw (t, v, e, t) refl
      ]
      | inr f ↦ elim (Bool-cases (exists (is_row eq w r.cid.cid) db.workflows_receipts)) [
        | inl u ↦ rw (f, u) refl
        | inr v ↦ rw (f, v, e, snoc_receipt eq r db) refl
      ]
    ]

    -- On consistent tables, committing a receipt implements its specification: in the view of
    -- the tables as sets, the receipt enters the stored ones and the pair with the workflow
    -- enters the joined ones where the workflow is stored, and nothing changes where it is not.
    pub view-commit_receipt :
        (w : C) (r : Receipt C F P) (db : Db C F P U)
        → IsConsistent eq db
        → view eq (commit_receipt eq w r db).1 ≡ commit_view eq w r.cid.cid (view eq db)
    unfolding commit_view
    view-commit_receipt w r db h = elim (Bool-cases (exists (is_workflow eq w) db.workflows)) [
      | inr e ↦ rw (ap (λ p. p.1) (rolled_back eq w r db h e), e) refl
      | inl e ↦
          rw (after_commit w r db e, e)
            (ap₂
              (λ receipts rows. record {
                workflows = λ c. exists (is_workflow eq c) db.workflows;
                receipts = receipts;
                rows = rows;
              })
              (append_receipt r db.receipts) (append_row w r.cid.cid db.workflows_receipts))
    ]
