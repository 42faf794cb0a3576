-- ===== src/Runtime/Worker/Start.antt =====
-- `Worker::new` and `Worker::run` of homestar-runtime/src/worker.rs: from a workflow to the run of its
-- queue. The settings and the channels of a worker are left out.
use homestar.Prelude.{ℕ, String, Option, none, some, List, [], map}
use homestar.Prelude.Classes.{Eq}
use homestar.Result.{Result, ok, err, map_err, ◌>>=◌}
use homestar.Ipld.{Ipld}
use homestar.Foreign.{Foreign}
use homestar.Core.Pointer.{Pointer}
use homestar.Core.Instruction.{to_cid}
use homestar.Core.Task.{Workflow, len, workflow_to_ipld}
use homestar.Wasm.Io.{Output}
use homestar.Wasm.Value.Component.{Component}
use homestar.Runtime.Receipt.{Failure, failed, any, output_as_arg}
use homestar.Runtime.Resources.{Resource}
use homestar.Runtime.Info.{Info}
use homestar.Runtime.Graph.{Vertex, DagNode, graph}
use homestar.Runtime.Retrieve as Retrieve
use homestar.Runtime.Scheduler as Scheduler
use homestar.Runtime.Scheduler.{ExecutionGraph, Found, TaskScheduler}
use homestar.Runtime.Store.{Db, find_instruction_pointers}
use homestar.Runtime.Worker.{Run, Action}
use homestar.Runtime.Worker.Queue.{Spawned, run_queue}

pub record Worker (C F P U A : Type 0) : Type 0 where
  pub graph : ExecutionGraph C U (Vertex C F U A)
  pub workflow_name : String
  pub workflow_info : Info C U
  pub workflow_started : ℕ
  pub db : Db C F P U

-- `name.unwrap_or(FastStr::from_string(workflow_cid.to_string()))`
abbrev pub name_or : Option String → String → String
name_or none text = text
name_or (some name) text = name

module _ {C F P U A : Type 0} (e : Foreign C F P U) (eq : Eq C) (into : A → Ipld C F)
    (from : Ipld C F → A) where
  -- `Worker::new`, at the time `now`
  unfoldable pub new :
      (List (DagNode (Vertex C F U A)) → Option (List (List (DagNode (Vertex C F U A)))))
      → Workflow C F U A
      → Option String
      → ℕ
      → Db C F P U
      → Result Failure (Worker C F P U A)
  new build_schedule workflow name now db = do
    workflow_cid ← map_err any (to_cid e (workflow_to_ipld e into workflow))
    g ← graph e eq into from build_schedule workflow
    let name' = name_or name (e.cid_to_string workflow_cid)
    let ((info, started), db') =
        Retrieve.init eq workflow_cid (len workflow) name' g.indexed_resources now db
    ok (record {
      graph = g;
      workflow_name = name';
      workflow_info = info;
      workflow_started = started;
      db = db';
    })

  -- the query for receipts, as the scheduler makes it
  abbrev pub find_in_db : Db C F P U → List (Pointer C) → Option (List (Found C A))
  find_in_db db ptrs = some (
      map (λ r. record { instruction = r.instruction.cid; output = output_as_arg from r })
        (find_instruction_pointers eq ptrs db))

  module _ {B G H V D : Type 0} (eq_rsc : Eq (Resource C U)) (w : Component C F G H V D)
      (of_bytes : B → A) where
    -- `TaskScheduler::init` with the worker's graph and database
    abbrev pub schedule :
        (List (Resource C U) → Option (List (Resource C U × B)))
        → Worker C F P U A
        → Option (TaskScheduler C U (Vertex C F U A) A B)
    schedule fetch worker =
        Scheduler.init eq e.cid_from_str (find_in_db worker.db) fetch worker.graph

    -- what a run of the queue starts with
    abbrev pub start : Worker C F P U A → TaskScheduler C U (Vertex C F U A) A B → Run C F P U A B
    start worker s = record {
      linkmap = s.linkmap;
      resources = s.resources;
      resume_step = s.resume_step;
      info = worker.workflow_info;
      db = worker.db;
      sent = [];
    }

    -- `Worker::run`, with the database afterwards
    unfoldable pub run :
        (List (Resource C U) → Option (List (Resource C U × B)))
        → (act : Run C F P U A B → List (Spawned C F A B) → List (Action C F P (Output F G H V)))
        → Worker C F P U A
        → Result Failure (Unit {0}) × Db C F P U
    run fetch act worker = elim (schedule fetch worker) [
      | some s ↦
          let (result, after) =
            run_queue e eq eq_rsc w from of_bytes into act s.run (start worker s) in
          (result, after.db)
      | none ↦ (err failed, worker.db)
    ]
