-- ===== src/Runtime/Retrieve/Names.antt =====
-- What `update_local_name` changes, where `Info::init` calls it.
use text.Mathlib.Text.{◌==◌}
use homestar.Prelude.{
  ℕ, ◌≡◌, refl, ap, String, Bool, false, Option, none, some, List, [], ◌∷◌, map, inl, inr,
  Bool-cases, ltb, if◌then◌else◌,
}
use homestar.Prelude.Classes.{Eq}
use homestar.Prelude.Table.{first}
use homestar.Result.{ok, ok_or, ok_or-eq-ok}
use homestar.Runtime.Resources.{IndexedResources}
use homestar.Runtime.Info.{Info, Stored}
use homestar.Runtime.Store.{
  Db, is_workflow, select_workflow, get_workflow_info, update_local_name, not_found,
}
use homestar.Runtime.Retrieve.{init}

abbrev mapped : {A : Type 0} → (A → A) → Option A → Option A
mapped f none = none
mapped f (some x) = some (f x)

-- A query whose test does not see what `f` changes.
first-map :
    {A : Type 0} (p : A → Bool) (f : A → A) (xs : List A) {x : A}
    → ((y : A) → p (f y) ≡ p y)
    → first p xs ≡ some x
    → first p (map f xs) ≡ some (f x)
unfolding first
first-map p f [] h e = cc
first-map p f (y ∷ ys) h e = elim (Bool-cases (p y)) [
  | inl t ↦ rw (h y, t) (ap (mapped f) (rw t at e))
  | inr t ↦ rw (h y, t) (first-map p f ys h (rw t at e))
]

-- a stored workflow with the new name, if it was created before
abbrev pub renamed : {C U : Type 0} → String → ℕ → Stored C U → Stored C U
renamed name now w = if ltb w.created_at now then record w { name = some name } else w

module _ {C U : Type 0} (eq : Eq C) where
  renamed-is_workflow :
      (c : C) (name : String) (now : ℕ) (w : Stored C U)
      → is_workflow eq c (renamed name now w) ≡ is_workflow eq c w
  renamed-is_workflow c name now w = elim (Bool-cases (ltb w.created_at now)) [
    | inl e ↦ rw e refl
    | inr e ↦ rw e refl
  ]

module _ {C F P U : Type 0} (eq : Eq C) where
  select_workflow-update_local_name :
      (d : C) (name : String) (now : ℕ) (db : Db C F P U) (w : Stored C U)
      → select_workflow eq d db ≡ ok w
      → select_workflow eq d (update_local_name name now db) ≡ ok (renamed name now w)
  unfolding select_workflow update_local_name
  select_workflow-update_local_name d name now db w e =
      ap (λ o. ok_or o not_found)
        (first-map (is_workflow eq d) (renamed name now) db.workflows
          (renamed-is_workflow eq d name now) (ok_or-eq-ok _ _ e))

  -- Where a workflow is stored under a name, and its information is initialised under another
  -- one: the information is what was stored; and any workflow `w` of the database, whatever its
  -- CID, is then stored under the new name if it was created before now, and as it was if not.
  pub init-renamed :
      (c : C) (len : ℕ) (name old : String) (resources : IndexedResources C U) (now : ℕ)
      (info : Info C U) (db : Db C F P U)
      → get_workflow_info eq c db ≡ ok (some old, info)
      → (old == name) ≡ false
      → (d : C) (w : Stored C U) → select_workflow eq d db ≡ ok w
      → let (result, after) = init eq c len name resources now db in
        (result ≡ (info, now)) × (select_workflow eq d after ≡ ok (renamed name now w))
  unfolding init
  init-renamed c len name old resources now info db found other d w e =
      rw (init, found, other) (refl, select_workflow-update_local_name d name now db w e)
