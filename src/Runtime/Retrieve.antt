-- ===== src/Runtime/Retrieve.antt =====
-- `Info::init` and `Info::retrieve` of homestar-runtime/src/workflow/info.rs: a workflow's information
-- from the database, or from the network. The request that `init` spawns, whose answer it drops, and
-- the events of the feature `websocket-notify` are left out.
pub mod Known
pub mod Names
use text.Mathlib.Text.{◌==◌}
use homestar.Prelude.{
  ℕ, ◌≡◌, refl, sym, ap, ◌∙◌, String, Bool, true, false, Option, none, some, List, [], ◌∷◌, ◌++◌,
  map, not, if◌then◌else◌, inl, inr, Bool-cases, Option-cases, ltb,
}
use homestar.Prelude.Classes.{Eq}
use homestar.Prelude.Table.{exists, first}
use homestar.Result.{Result, ok, err, ok_or, Result-cases, >>=-eq-ok, ok_or-eq-ok, ok-injective}
use homestar.Core.Pointer as Pointer
use homestar.Runtime.Receipt.{Failure, failed}
use homestar.Runtime.Resources.{IndexedResources}
use homestar.Runtime.Resources.Table.{beq_self, beq_eq}
use homestar.Runtime.Info.{Info, Stored, new, new_stored, default, as_i32}
use homestar.Runtime.Store.{
  Db, StoreError, is_workflow, select_workflow, get_workflow_info, update_local_name,
  store_workflow,
}
use homestar.Runtime.Store.Commit.{exists-snoc}

-- the guard of the first arm: `stored_name != name`
abbrev pub is_renamed : Option String → String → Bool
is_renamed none name = false
is_renamed (some stored_name) name = not (stored_name == name)

module _ {C F P U : Type 0} (eq : Eq C) where
  -- `Info::init`, at the time `now`
  unfoldable pub init :
      C → ℕ → String → IndexedResources C U → ℕ → Db C F P U → (Info C U × ℕ) × Db C F P U
  init workflow_cid workflow_len name resources now db =
      elim (get_workflow_info eq workflow_cid db) [
        | ok (stored_name, info) ↦ (
          (info, now),
          (if is_renamed stored_name name then update_local_name name now db else db),
        )
        | err _ ↦
            let stored =
              new_stored (Pointer.new workflow_cid) (some name) (as_i32 workflow_len) resources
                now in
            let (result, db') = store_workflow eq stored db in ((default result, now), db')
      ]

  -- `Info::retrieve`, where `answer` is what a provider answers before the deadline
  unfoldable pub retrieve : C → Option (Db C F P U) → Option (Info C U) → Result Failure (Info C U)
  retrieve workflow_cid none answer = ok_or answer failed
  retrieve workflow_cid (some db) answer = elim (get_workflow_info eq workflow_cid db) [
    | ok (_, info) ↦ ok info
    | err _ ↦ ok_or answer failed
  ]
