-- ===== src/Runtime/Worker/Queue.antt =====
-- `run_queue` of homestar-runtime/src/worker.rs: the batches, each with the actions of its tasks.
use text.Mathlib.Text.{◌==◌}
use homestar.Prelude.{String, Option, none, some, List, [], ◌∷◌, ◌++◌, if◌then◌else◌}
use homestar.Prelude.Classes.{Eq}
use homestar.Result.{Result, ok, err, ok_or, map_err, ◌>>=◌}
use homestar.Ipld.{Ipld, string, map, from_list}
use homestar.Foreign.{Foreign}
use homestar.Core.Pointer.{Pointer}
use homestar.Core.Input.Defs.{Args}
use homestar.Core.Instruction.{instruction_pointer}
use homestar.Wasm.Io.{Output}
use homestar.Wasm.Value.Component.{Component}
use homestar.Runtime.Receipt.{Failure, failed, any}
use homestar.Runtime.Resources as Index
use homestar.Runtime.Resources.{Resource, url}
use homestar.Runtime.Graph.{Vertex}
use homestar.Runtime.Scheduler.{Batch, Schedule}
use homestar.Runtime.Worker.{Run, Action, look_up, finish, fail, resolve_cid, join}

-- `tasks::WASM_OP`
abbrev pub wasm_op : String
wasm_op = "wasm/run"

-- `RegisteredTasks`, with one task-type
pub data RegisteredTasks : Type 0 where
  wasm_run : RegisteredTasks

unfoldable pub ability : String → Option RegisteredTasks
ability s = if s == wasm_op then some wasm_run else none

-- What a task is spawned with.
pub record Spawned (C F A B : Type 0) : Type 0 where
  pub wasm : B
  pub fun : String
  pub args : Args C F A
  pub instruction : Pointer C
  pub invocation : Pointer C
  pub meta : Ipld C F

module _ {C F P U A B : Type 0} (e : Foreign C F P U) (eq_rsc : Eq (Resource C U))
    (into : A → Ipld C F) where
  -- the arm `Some(RegisteredTasks::WasmRun)`, up to the `spawn`
  unfoldable pub spawn_wasm :
      List (Resource C U × B) → Vertex C F U A → String → Result Failure (Spawned C F A B)
  unfolding from_list
  spawn_wasm resources v fun = do
    wasm ← ok_or (Index.get eq_rsc (url v.instruction.rsc) resources) failed
    instruction_ptr ← map_err any (instruction_pointer e into v.instruction)
    ok (record {
      wasm = wasm;
      fun = fun;
      args = v.parsed.args;
      instruction = instruction_ptr;
      invocation = v.invocation;
      meta = map (from_list (("op", string fun) ∷ []));
    })

  -- the `match RegisteredTasks::ability(..)`; a node whose operation is no task-type is passed over
  unfoldable pub spawn :
      List (Resource C U × B)
      → Vertex C F U A
      → String
      → Option RegisteredTasks
      → Result Failure (List (Spawned C F A B))
  unfolding spawn_wasm
  spawn resources v fun none = ok []
  spawn resources v fun (some wasm_run) = do task ← spawn_wasm resources v fun; ok (task ∷ [])

  -- the loop over a batch's nodes
  unfoldable pub spawn_batch :
      List (Resource C U × B) → Batch (Vertex C F U A) → Result Failure (List (Spawned C F A B))
  unfolding spawn ability
  spawn_batch resources [] = ok []
  spawn_batch resources (n ∷ ns) = do
    fun ← ok_or n.vertex.parsed.fun failed
    spawned ← spawn resources n.vertex fun (ability n.vertex.instruction.op.text)
    tasks ← spawn_batch resources ns
    ok (spawned ++ tasks)

module _ {C F P U A B G H V D : Type 0} (e : Foreign C F P U) (eq : Eq C)
    (eq_rsc : Eq (Resource C U)) (w : Component C F G H V D) (from : Ipld C F → A)
    (of_bytes : B → A) where
  -- `while let Some(res) = task_set.join_next().await`, with the tasks' lookups in between. A task
  -- that failed breaks the loop, and the tasks that are left are dropped.
  unfoldable pub run_actions :
      List (Action C F P (Output F G H V))
      → Run C F P U A B
      → Result Failure (Unit {0}) × Run C F P U A B
  unfolding resolve_cid join
  run_actions [] s = (ok tt, s)
  run_actions (look_up c answer ∷ actions) s =
      run_actions actions (resolve_cid eq eq_rsc from of_bytes c answer s).1
  run_actions (finish d ∷ actions) s =
      let (joined, s') = join e eq w from d s in
      elim joined [ ok _ ↦ run_actions actions s' | err failure ↦ (err failure, s') ]
  run_actions (fail ∷ actions) s = (ok tt, s)

  -- `run_queue`; `act` is what the tasks of a batch do
  unfoldable pub run_queue :
      (into : A → Ipld C F)
      → (act : Run C F P U A B → List (Spawned C F A B) → List (Action C F P (Output F G H V)))
      → Schedule (Vertex C F U A)
      → Run C F P U A B
      → Result Failure (Unit {0}) × Run C F P U A B
  unfolding spawn_batch run_actions
  run_queue into act [] s = (ok tt, s)
  run_queue into act (batch ∷ batches) s = elim (spawn_batch e eq_rsc into s.resources batch) [
    | ok tasks ↦
        let (result, s') = run_actions (act s tasks) s in
        elim result [ ok _ ↦ run_queue into act batches s' | err failure ↦ (err failure, s') ]
    | err failure ↦ (err failure, s)
  ]
