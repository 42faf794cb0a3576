-- ===== src/Runtime/Retrieve/Known.antt =====
-- The workflow whose information is initialised is stored.
use homestar.Prelude.{
  ℕ, ◌≡◌, refl, sym, ap, ◌∙◌, String, Bool, true, Option, some, List, [], ◌∷◌, map, inl, inr,
  Bool-cases, ltb,
}
use homestar.Prelude.Classes.{Eq}
use homestar.Prelude.Table.{exists, first}
use homestar.Result.{ok, ok_or, Result-cases, >>=-eq-ok, ok_or-eq-ok, ok-injective}
use homestar.Runtime.Resources.{IndexedResources}
use homestar.Runtime.Resources.Table.{beq_self, beq_eq}
use homestar.Runtime.Info.{Info, Stored, new, new_stored, default, as_i32}
use homestar.Core.Pointer as Pointer
use homestar.Runtime.Store.{
  Db, is_workflow, select_workflow, get_workflow_info, update_local_name, store_workflow,
}
use homestar.Runtime.Store.Commit.{exists-snoc}
use homestar.Runtime.Retrieve.{init, is_renamed}

exists_of_first :
    {A : Type 0} (p : A → Bool) (xs : List A) {x : A}
    → first p xs ≡ some x
    → (exists p xs ≡ true) × (p x ≡ true)
unfolding exists first
exists_of_first p [] h = cc
exists_of_first p (y ∷ ys) h = elim (Bool-cases (p y)) [
  | inl e ↦ (rw e refl, cc (rw e at h, e))
  | inr e ↦ let (a, b) = exists_of_first p ys (rw e at h) in (rw e a, b)
]

-- the test does not see what `f` changes
exists-map :
    {A : Type 0} (p : A → Bool) (f : A → A) (xs : List A)
    → ((x : A) → p (f x) ≡ p x)
    → exists p (map f xs) ≡ exists p xs
unfolding exists
exists-map p f [] h = refl
exists-map p f (x ∷ xs) h = rw (h x, exists-map p f xs h) refl

module _ {C F P U : Type 0} (eq : Eq C) where
  -- a workflow whose information is found is stored, and the information is that workflow's
  get_workflow_info_known :
      (c : C) (db : Db C F P U) {name : Option String} {i : Info C U}
      → get_workflow_info eq c db ≡ ok (name, i)
      → (exists (is_workflow eq c) db.workflows ≡ true) × (i.cid ≡ c)
  unfolding get_workflow_info select_workflow new
  get_workflow_info_known c db h =
      let (w, e, k) = >>=-eq-ok (ok_or (first (is_workflow eq c) db.workflows) _) _ h in
      let (x, q) = exists_of_first (is_workflow eq c) db.workflows (ok_or-eq-ok _ _ e) in
      (x, ap (λ p. p.1.cid) (sym (ok-injective k)) ∙ sym (beq_eq eq q))

  exists-update_local_name :
      (c : C) (name : String) (now : ℕ) (db : Db C F P U)
      → exists (is_workflow eq c) (update_local_name name now db).workflows
        ≡ exists (is_workflow eq c) db.workflows
  unfolding update_local_name
  exists-update_local_name c name now db =
      exists-map (is_workflow eq c) _ db.workflows
        (λ w. elim (Bool-cases (ltb w.created_at now)) [ inl e ↦ rw e refl | inr e ↦ rw e refl ])

  exists-store_workflow :
      (w : Stored C U) (db : Db C F P U)
      → exists (is_workflow eq w.cid.cid) (store_workflow eq w db).1.workflows ≡ true
  unfolding store_workflow
  exists-store_workflow w db = elim (Bool-cases (exists (is_workflow eq w.cid.cid) db.workflows)) [
    | inl e ↦ rw e e
    | inr e ↦ rw e (exists-snoc _ db.workflows w (beq_self eq w.cid.cid))
  ]

  store_workflow_returned : (w : Stored C U) (db : Db C F P U) → (store_workflow eq w db).0 ≡ w
  unfolding store_workflow
  store_workflow_returned w db =
      elim (Bool-cases (exists (is_workflow eq w.cid.cid) db.workflows)) [
        | inl e ↦ rw e refl
        | inr e ↦ rw e refl
      ]

  -- After `init`, the workflow is stored, whether it was known before or not, and the information is
  -- the workflow's.
  pub init-is_workflow :
      (c : C) (len : ℕ) (name : String) (resources : IndexedResources C U) (now : ℕ)
      (db : Db C F P U)
      → let ((info, started), after) = init eq c len name resources now db in
        (exists (is_workflow eq c) after.workflows ≡ true) × (info.cid ≡ c)
  unfolding init new_stored default
  init-is_workflow c len name resources now db = elim (Result-cases (get_workflow_info eq c db)) [
    | inl ((stored_name, info), h) ↦
        let (x, q) = get_workflow_info_known c db h in
        elim (Bool-cases (is_renamed stored_name name)) [
          | inl r ↦ rw (init, h, r) (exists-update_local_name c name now db ∙ x, q)
          | inr r ↦ rw (init, h, r) (x, q)
        ]
    | inr (_, h) ↦
        let w = new_stored (Pointer.new c) (some name) (as_i32 len) resources now in
        rw (init, h)
          (exists-store_workflow w db, ap (λ v. v.cid.cid) (store_workflow_returned w db))
  ]
