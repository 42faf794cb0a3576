-- ===== src/Core/Task.antt =====
-- homestar-core/src/workflow/task.rs, invocation.rs and workflow.rs: tasks, invocations and the
-- workflow that lists them.
pub mod Laws
use homestar.Prelude.{ℕ, ◌%◌, ◌^◌, String, Option, none, some, List, [], ◌∷◌, length}
use homestar.Result.{Result, ok, err, ok_or, to_option, ◌>>=◌}
use homestar.Ipld.{Ipld, Items, nil, cons, null, map, list, get, from_list}
use homestar.Foreign.{Foreign}
use homestar.Core.Error.{Error, from_ipld, require, not_an_ipld_list}
use homestar.Core.Pointer.{Pointer, new, pointer_to_ipld, pointer_of_ipld}
use homestar.Core.Proof.{UcanPrf, prf_to_ipld, prf_of_ipld}
use homestar.Core.Instruction.{
  RunInstruction, expanded, ptr, run_to_ipld, run_of_ipld, instruction_to_ipld, to_cid,
}

abbrev pub run_key : String
run_key = "run"

abbrev pub cause_key : String
cause_key = "cause"

abbrev pub metadata_key : String
metadata_key = "meta"

abbrev pub proof_key : String
proof_key = "prf"

abbrev pub task_key : String
task_key = "task"

abbrev pub tasks_key : String
tasks_key = "tasks"

pub record Task (C F U T : Type 0) : Type 0 where
  pub run : RunInstruction C F U T
  pub cause : Option (Pointer C)
  pub meta : Ipld C F
  pub prf : UcanPrf C

pub record Invocation (C F U T : Type 0) : Type 0 where
  pub task : Task C F U T

pub record Workflow (C F U T : Type 0) : Type 0 where
  pub tasks : List (Task C F U T)

module _ {C F U T : Type 0} where
  abbrev pub new_task : RunInstruction C F U T → Ipld C F → UcanPrf C → Task C F U T
  new_task run meta prf = record { run = run; cause = none; meta = meta; prf = prf }

  -- `Workflow::len`, `self.tasks.len() as u32`
  unfoldable pub len : Workflow C F U T → ℕ
  len w = length w.tasks % 2 ^ 32

-- `task.cause.map_or(Ipld::Null, |cause| cause.into())`
abbrev pub cause_to_ipld : {C F : Type 0} → Option (Pointer C) → Ipld C F
cause_to_ipld none = null
cause_to_ipld (some p) = pointer_to_ipld p

module _ {C F P U T : Type 0} (e : Foreign C F P U) where
  module _ (into : T → Ipld C F) where
    -- `From<Task> for Ipld`
    unfoldable pub task_to_ipld : Task C F U T → Ipld C F
    unfolding from_list
    task_to_ipld t = map (
        from_list (
          (run_key, run_to_ipld e into t.run)
          ∷ (cause_key, cause_to_ipld t.cause)
          ∷ (metadata_key, t.meta)
          ∷ (proof_key, prf_to_ipld t.prf)
          ∷ []))

    run_cid : RunInstruction C F U T → Result (Error C F (Unit {0})) C
    run_cid (expanded i) = to_cid e (instruction_to_ipld e into i)
    run_cid (ptr p) = ok p.cid

    -- `Task::instruction_cid`
    unfoldable pub instruction_cid : Task C F U T → Result (Error C F (Unit {0})) C
    unfolding run_cid
    instruction_cid t = run_cid t.run

    -- `From<Invocation> for Ipld`
    unfoldable pub invocation_to_ipld : Invocation C F U T → Ipld C F
    unfolding task_to_ipld from_list
    invocation_to_ipld i = map (from_list ((task_key, task_to_ipld i.task) ∷ []))

    -- `TryFrom<Invocation> for Pointer`
    unfoldable pub invocation_pointer :
        Invocation C F U T → Result (Error C F (Unit {0})) (Pointer C)
    invocation_pointer i = do c ← to_cid e (invocation_to_ipld i); ok (new c)

    tasks_to_items : List (Task C F U T) → Items C F
    tasks_to_items [] = nil
    tasks_to_items (t ∷ ts) = cons (task_to_ipld t) (tasks_to_items ts)

    -- `From<Workflow> for Ipld`
    unfoldable pub workflow_to_ipld : Workflow C F U T → Ipld C F
    unfolding tasks_to_items from_list
    workflow_to_ipld w = map (from_list ((tasks_key, list (tasks_to_items w.tasks)) ∷ []))

module _ {C F P U : Type 0} (e : Foreign C F P U) where
  -- `.and_then(Null => None).and_then(|ipld| ipld.try_into().ok())`
  abbrev pub cause_of : Option (Ipld C F) → Option (Pointer C)
  cause_of none = none
  cause_of (some null) = none
  cause_of (some x) = to_option (pointer_of_ipld e.serde x)

module _ {C F P U T : Type 0} (e : Foreign C F P U) (from : Ipld C F → T) where
  -- `TryFrom<Ipld> for Task`
  unfoldable pub task_of_ipld : Ipld C F → Result (Error C F (Unit {0})) (Task C F U T)
  unfolding get
  task_of_ipld x = do
    m ← ok_or (e.from_map x) from_ipld
    r ← require run_key m
    run ← run_of_ipld e from r
    meta ← require metadata_key m
    p ← require proof_key m
    prf ← prf_of_ipld e.serde p
    ok (record { run = run; cause = cause_of e (get cause_key m); meta = meta; prf = prf })

  -- `TryFrom<Ipld> for Invocation`
  unfoldable pub invocation_of_ipld : Ipld C F → Result (Error C F (Unit {0})) (Invocation C F U T)
  unfolding get
  invocation_of_ipld x = do
    m ← ok_or (e.from_map x) from_ipld
    t ← require task_key m
    task ← task_of_ipld t
    ok (record { task = task })

  -- the `try_fold` that pushes each task
  tasks_of_items : Items C F → Result (Error C F (Unit {0})) (List (Task C F U T))
  tasks_of_items nil = ok []
  tasks_of_items (cons x xs) = do t ← task_of_ipld x; rest ← tasks_of_items xs; ok (t ∷ rest)

  -- the `if let Ipld::List(tasks) = ipld` of `TryFrom<Ipld> for Workflow`
  tasks_of_list : Ipld C F → Result (Error C F (Unit {0})) (List (Task C F U T))
  unfolding tasks_of_items
  tasks_of_list (list xs) = tasks_of_items xs
  tasks_of_list x = err not_an_ipld_list

  -- `TryFrom<Ipld> for Workflow`
  unfoldable pub workflow_of_ipld : Ipld C F → Result (Error C F (Unit {0})) (Workflow C F U T)
  unfolding get tasks_of_list
  workflow_of_ipld x = do
    m ← ok_or (e.from_map x) from_ipld
    l ← require tasks_key m
    ts ← tasks_of_list l
    ok (record { tasks = ts })
