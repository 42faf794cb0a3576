-- ===== src/Runtime/Store/Kept.antt =====
-- What committing a receipt leaves in the tables.
use homestar.Prelude.{◌≡◌, refl, ◌∙◌, Bool, true, List, [], ◌∷◌, ◌++◌, inl, inr, Bool-cases, ◌&&◌}
use homestar.Prelude.Classes.{Eq}
use homestar.Prelude.Table.{exists, exists-append}
use homestar.Runtime.Receipt.{Receipt}
use homestar.Runtime.Store.{
  Db, is_receipt, is_workflow, is_row, store_receipt, store_workflow_receipt, commit_receipt,
  transaction_end,
}

exists-more :
    {A : Type 0} (p : A → Bool) (xs : List A) (x : A)
    → exists p xs ≡ true
    → exists p (xs ++ x ∷ []) ≡ true
exists-more p xs x h = exists-append p xs (x ∷ []) ∙ rw h refl

module _ {C F P U : Type 0} (eq : Eq C) where
  -- no receipt and no row is lost, and the workflows are the same
  pub record Keeps (before after : Db C F P U) : Type 0 where
    pub receipts :
        (c : C)
        → exists (is_receipt eq c) before.receipts ≡ true
        → exists (is_receipt eq c) after.receipts ≡ true
    pub rows :
        (w c : C)
        → exists (is_row eq w c) before.workflows_receipts ≡ true
        → exists (is_row eq w c) after.workflows_receipts ≡ true
    pub workflows : after.workflows ≡ before.workflows

  pub Keeps-refl : (db : Db C F P U) → Keeps db db
  Keeps-refl db = record { receipts = λ c h. h; rows = λ w c h. h; workflows = refl }

  pub Keeps-trans : (a b c : Db C F P U) → Keeps a b → Keeps b c → Keeps a c
  Keeps-trans a b c h k = record {
    receipts = λ r p. k.receipts r (h.receipts r p);
    rows = λ w r p. k.rows w r (h.rows w r p);
    workflows = k.workflows ∙ h.workflows;
  }

  store_receipt-Keeps : (r : Receipt C F P) (db : Db C F P U) → Keeps db (store_receipt eq r db).1
  unfolding store_receipt
  store_receipt-Keeps r db = elim (Bool-cases (exists (is_receipt eq r.cid.cid) db.receipts)) [
    | inl e ↦ rw e (Keeps-refl db)
    | inr e ↦ rw e (record {
      receipts = λ c h. exists-more _ db.receipts r h;
      rows = λ w c h. h;
      workflows = refl;
    })
  ]

  transaction_end-Keeps :
      (r : Receipt C F P) (w c : C) (before db : Db C F P U)
      → Keeps before db
      → Keeps before (transaction_end r before (store_workflow_receipt eq w c db)).1
  unfolding transaction_end store_workflow_receipt
  transaction_end-Keeps r w c before db h =
      elim (Bool-cases (exists (is_row eq w c) db.workflows_receipts)) [
        | inl e ↦ rw e h
        | inr e ↦
            elim (Bool-cases
              (exists (is_workflow eq w) db.workflows && exists (is_receipt eq c) db.receipts)) [
                | inl f ↦
                    rw (e, f)
                      (record {
                        receipts = h.receipts;
                        rows = λ v d k. exists-more _ db.workflows_receipts _ (h.rows v d k);
                        workflows = h.workflows;
                      })
                | inr f ↦ rw (e, f) (Keeps-refl before)
              ]
      ]

  pub commit_receipt-Keeps :
      (w : C) (r : Receipt C F P) (db : Db C F P U) → Keeps db (commit_receipt eq w r db).1
  unfolding commit_receipt
  commit_receipt-Keeps w r db =
      transaction_end-Keeps _ w _ db (store_receipt eq r db).1 (store_receipt-Keeps r db)
