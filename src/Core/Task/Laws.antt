-- ===== src/Core/Task/Laws.antt =====
-- Tasks, invocations and workflows through Ipld.
use homestar.Prelude.{◌≡◌, refl, Option, none, some, List, [], ◌∷◌}
use homestar.Result.{ok}
use homestar.Ipld.{Ipld}
use homestar.Foreign.{Foreign, IsForeign}
use homestar.Core.Pointer.{Pointer}
use homestar.Core.Pointer.Laws.{pointer_of_ipld-to_ipld}
use homestar.Core.Proof.Laws.{prf_of_ipld-to_ipld}
use homestar.Core.Instruction.Laws.{IsWritableRun, run_of_ipld-to_ipld}
use homestar.Core.Task.{
  Task, Invocation, Workflow, cause_to_ipld, cause_of, task_to_ipld, task_of_ipld,
  invocation_to_ipld, invocation_of_ipld, tasks_to_items, tasks_of_items, workflow_to_ipld,
  workflow_of_ipld,
}

abbrev pub AreWritable : {C F U T : Type 0} → (Ipld C F → T) → List (Task C F U T) → Type 0
AreWritable from [] = Unit
AreWritable from (t ∷ ts) = IsWritableRun from t.run × AreWritable from ts

module _ {C F P U : Type 0} (e : Foreign C F P U) (law : IsForeign e) where
  cause_roundtrip : (o : Option (Pointer C)) → cause_of e (some (cause_to_ipld o)) ≡ o
  cause_roundtrip none = refl
  cause_roundtrip (some p) = rw (pointer_of_ipld-to_ipld e.serde law.serde p)

module _ {C F P U T : Type 0} (e : Foreign C F P U) (law : IsForeign e) (into : T → Ipld C F)
    (from : Ipld C F → T) (back : (t : T) → from (into t) ≡ t) where
  -- A task written as Ipld is read back as itself, its cause, metadata and proof included,
  -- where the other crates read and print as they document, the payload's own conversions are
  -- inverse, and its instruction, if expanded, has a nonce of its array's size and an input
  -- that does not spell another kind of input.
  pub task_of_ipld-to_ipld :
      (t : Task C F U T)
      → IsWritableRun from t.run
      → task_of_ipld e from (task_to_ipld e into t) ≡ ok t
  unfolding task_of_ipld task_to_ipld
  task_of_ipld-to_ipld t w = rw (
    law.serde.map_some,
    run_of_ipld-to_ipld e law into from back t.run w,
    prf_of_ipld-to_ipld e.serde law.serde t.prf,
    cause_roundtrip e law t.cause,
  )

  -- An invocation written as Ipld is read back as itself, where the other crates read and print
  -- as they document, the payload's own conversions are inverse, and its task's instruction, if
  -- expanded, has a nonce of its array's size and an input that does not spell another kind of
  -- input.
  pub invocation_of_ipld-to_ipld :
      (i : Invocation C F U T)
      → IsWritableRun from i.task.run
      → invocation_of_ipld e from (invocation_to_ipld e into i) ≡ ok i
  unfolding invocation_of_ipld invocation_to_ipld
  invocation_of_ipld-to_ipld i w = rw law.serde.map_some (rw (task_of_ipld-to_ipld i.task w))

  tasks_roundtrip :
      (ts : List (Task C F U T))
      → AreWritable from ts
      → tasks_of_items e from (tasks_to_items e into ts) ≡ ok ts
  unfolding tasks_of_items tasks_to_items
  tasks_roundtrip [] w = refl
  tasks_roundtrip (t ∷ ts) (w, ws) = rw (task_of_ipld-to_ipld t w) (rw (tasks_roundtrip ts ws))

  -- A workflow written as Ipld is read back as itself, the same tasks in the same order, where
  -- the other crates read and print as they document, the payload's own conversions are
  -- inverse, and every expanded instruction has a nonce of its array's size and an input that
  -- does not spell another kind of input.
  pub workflow_of_ipld-to_ipld :
      (w : Workflow C F U T)
      → AreWritable from w.tasks
      → workflow_of_ipld e from (workflow_to_ipld e into w) ≡ ok w
  unfolding workflow_of_ipld workflow_to_ipld
  workflow_of_ipld-to_ipld w h = rw law.serde.map_some (rw (tasks_roundtrip w.tasks h))
