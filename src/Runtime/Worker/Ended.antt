-- ===== src/Runtime/Worker/Ended.antt =====
-- A worker that is made from a workflow runs to its end.
use mathlib.Core.Path.{subst}
use homestar.Prelude.{ℕ, ◌≡◌, ap, ◌∙◌, String, true, Option, some, List}
use homestar.Prelude.Vec.{All}
use homestar.Prelude.Table.{exists}
use homestar.Prelude.Classes.{Eq}
use homestar.Result.{ok, map_err, >>=-eq-ok, ok-injective}
use homestar.Ipld.{Ipld}
use homestar.Foreign.{Foreign}
use homestar.Core.Instruction.{to_cid}
use homestar.Core.Task.{Workflow, len, workflow_to_ipld}
use homestar.Wasm.Io.{Output}
use homestar.Wasm.Value.Component.{Component}
use homestar.Runtime.Receipt.{any}
use homestar.Runtime.Resources.{Resource}
use homestar.Runtime.Graph.{Vertex, DagNode, graph}
use homestar.Runtime.Retrieve as Retrieve
use homestar.Runtime.Retrieve.Known.{init-is_workflow}
use homestar.Runtime.Scheduler.{TaskScheduler}
use homestar.Runtime.Scheduler.Resume.{init-some}
use homestar.Runtime.Store.{Db, is_workflow}
use homestar.Runtime.Store.Kept.{Keeps}
use homestar.Runtime.Worker.{Run, Action}
use homestar.Runtime.Worker.Queue.{Spawned, spawn_batch}
use homestar.Runtime.Worker.Grows.{run_queue-Grows}
use homestar.Runtime.Worker.Joined.{Succeeds, run_queue-ok}
use homestar.Runtime.Worker.Start.{Worker, new, name_or, find_in_db, schedule, start, run}

module _ {C F P U A : Type 0} (e : Foreign C F P U) (eq : Eq C) (into : A → Ipld C F)
    (from : Ipld C F → A) where
  -- the workflow of a worker is stored
  new-is_workflow :
      (build_schedule : List (DagNode (Vertex C F U A))
        → Option (List (List (DagNode (Vertex C F U A)))))
      (workflow : Workflow C F U A) (name : Option String) (now : ℕ) (db : Db C F P U)
      (worker : Worker C F P U A)
      → new e eq into from build_schedule workflow name now db ≡ ok worker
      → exists (is_workflow eq worker.workflow_info.cid) worker.db.workflows ≡ true
  unfolding new
  new-is_workflow build_schedule workflow name now db worker h =
      let (c, hc, h1) = >>=-eq-ok (map_err any (to_cid e (workflow_to_ipld e into workflow))) _ h in
      let (g, hg, h2) = >>=-eq-ok (graph e eq into from build_schedule workflow) _ h1 in
      let text = name_or name (e.cid_to_string c) in
      let (x, q) = init-is_workflow eq c (len workflow) text g.indexed_resources now db in
      subst
        (λ (v : Worker C F P U A).
          exists (is_workflow eq v.workflow_info.cid) v.db.workflows ≡ true)
        (ok-injective h2)
        (ap
            (λ d.
              exists (is_workflow eq d)
                (Retrieve.init eq c (len workflow) text g.indexed_resources now db).1.workflows)
            q
          ∙ x)

  module _ {B G H V D : Type 0} (eq_rsc : Eq (Resource C U)) (w : Component C F G H V D)
      (of_bytes : B → A) where
    -- Where a worker is made of a workflow, the fetch of resources answers, each node of the
    -- batches that are left to run can be spawned from what was fetched, and every task
    -- succeeds, the run of the worker ends with no error, and loses no receipt and no workflow
    -- of the database.
    pub run-new :
        (build_schedule : List (DagNode (Vertex C F U A))
          → Option (List (List (DagNode (Vertex C F U A)))))
        (fetch : List (Resource C U) → Option (List (Resource C U × B)))
        (act : Run C F P U A B → List (Spawned C F A B) → List (Action C F P (Output F G H V)))
        (workflow : Workflow C F U A) (name : Option String) (now : ℕ) (db : Db C F P U)
        (worker : Worker C F P U A)
        → new e eq into from build_schedule workflow name now db ≡ ok worker
        → ((rs : List (Resource C U)) → (f : List (Resource C U × B)) × (fetch rs ≡ some f))
        → ((s : TaskScheduler C U (Vertex C F U A) A B)
            → schedule e eq into from eq_rsc w of_bytes fetch worker ≡ some s
            → All
                (λ batch.
                  (tasks : List (Spawned C F A B)) × (spawn_batch e eq_rsc into s.resources batch
                    ≡ ok tasks))
                s.run)
        → ((now : Run C F P U A B) (tasks : List (Spawned C F A B))
            → All (Succeeds e w) (act now tasks))
        → let (result, after) = run e eq into from eq_rsc w of_bytes fetch act worker in
          (result ≡ ok tt) × Keeps eq worker.db after
    unfolding run
    run-new build_schedule fetch act workflow name now db worker h answers spawns succeeds =
        let (s, i) =
          init-some eq e.cid_from_str (find_in_db e eq into from worker.db) fetch worker.graph
            answers in
        let first = start e eq into from eq_rsc w of_bytes worker s in
        let o =
          run_queue-ok e eq w from eq_rsc of_bytes into act s.run first
            (new-is_workflow build_schedule workflow name now db worker h) (spawns s i) succeeds in
        let g = run_queue-Grows e eq w from eq_rsc of_bytes into act s.run first in
        rw (run, i) (o, g.kept)
