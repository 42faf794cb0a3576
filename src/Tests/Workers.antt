-- ===== src/Tests/Workers.antt =====
-- A worker that is made of the workflow of two tasks, and runs to its end.
use mathlib.Core.Path.{subst}
use mathlib.Core.Option.{some_inj}
use homestar.Prelude.{ℕ, ◌≡◌, refl, sym, ◌∙◌, String, Option, some, none, List, [], ◌∷◌}
use homestar.Prelude.Vec.{All}
use homestar.Result.{ok, err}
use homestar.Sample.{Value, same_text, same_resource}
use homestar.Core.Input.Defs.{args_of_ipld}
use homestar.Core.Instruction.{to_cid, instruction_pointer}
use homestar.Core.Task.{instruction_cid, invocation_pointer}
use homestar.Wasm.Io.{output_to_ipld, parse}
use homestar.Wasm.Value.Write.{to_ipld}
use homestar.Runtime.Graph.{Vertex, graph}
use homestar.Runtime.Receipt.{Receipt, try_with}
use homestar.Runtime.Resources.{Resource, url, get}
use homestar.Runtime.Scheduler.{TaskScheduler, Batch}
use homestar.Runtime.Scheduler as Scheduler
use homestar.Runtime.Store.{Db, get_workflow_info, find_instruction_pointers}
use homestar.Runtime.Store.Kept.{Keeps}
use homestar.Runtime.Worker.{Action, finish, receipt_of}
use homestar.Runtime.Worker.Queue.{spawn_batch}
use homestar.Runtime.Worker.Start.{Worker, new, schedule, run}
use homestar.Runtime.Worker.Ended.{run-new}
use homestar.Tests.Execution.{Tables, receipt}
use homestar.Tests.Graphs.{two_cids, workflow, same, one_batch, value_or}
use homestar.Tests.Runs.{crates, of_bytes, Wasm, done, State, Task}

abbrev Made : Type 0
Made = Worker String ℕ String String Value

abbrev Scheduled : Type 0
Scheduled = TaskScheduler String String (Vertex String ℕ String Value) Value (List ℕ)

abbrev empty_db : Tables
empty_db = record { workflows = []; receipts = []; workflows_receipts = [] }

abbrev any_worker : Made
any_worker = record {
  graph = record { schedule = []; indexed_resources = record { map = [] } };
  workflow_name = "";
  workflow_info = record {
    cid = "";
    name = none;
    num_tasks = 0;
    progress = [];
    progress_count = 0;
    resources = record { map = [] };
  };
  workflow_started = 0;
  db = empty_db;
}

abbrev worker : Made
worker = value_or any_worker (new two_cids same_text same same one_batch workflow none 5 empty_db)

worker_lem : new two_cids same_text same same one_batch workflow none 5 empty_db ≡ ok worker
unfolding new graph instruction_cid to_cid invocation_pointer parse args_of_ipld
worker_lem = refl

abbrev fetch : List (Resource String String) → Option (List (Resource String String × List ℕ))
fetch rs = some ((url "ipfs://bafywasm", 0 ∷ []) ∷ [])

abbrev done_receipt : Receipt String ℕ String
done_receipt = elim (receipt_of two_cids crates done) [ ok r ↦ r | err _ ↦ receipt ]

done_receipt_lem : receipt_of two_cids crates done ≡ ok done_receipt
unfolding receipt_of try_with to_cid output_to_ipld to_ipld
done_receipt_lem = refl

abbrev act : State → List Task → List (Action String ℕ String Wasm)
act s tasks = finish done ∷ []

abbrev CanSpawn : Scheduled → Type 0
CanSpawn s =
    All
      (λ batch.
        (tasks : List Task) × (spawn_batch two_cids same_resource same s.resources batch
          ≡ ok tasks))
      s.run

abbrev scheduled : Option Scheduled
scheduled = schedule two_cids same_text same same same_resource crates of_bytes fetch worker

abbrev first_scheduled : Scheduled
first_scheduled = elim scheduled [
  | some s ↦ s
  | none ↦ record { linkmap = []; ran = none; run = []; resume_step = none; resources = [] }
]

tasks_of : Batch (Vertex String ℕ String Value) → List Task
tasks_of b = value_or [] (spawn_batch two_cids same_resource same first_scheduled.resources b)

can_spawn : (s : Scheduled) → scheduled ≡ some s → CanSpawn s
unfolding new graph instruction_cid invocation_pointer parse args_of_ipld spawn_batch get
    instruction_pointer Scheduler.init Scheduler.scheduler_of Scheduler.resume_loop
    Scheduler.batch_step homestar.Core.Input.Defs.deferreds
    homestar.Core.InstructionResult.result_of_ipld homestar.Core.Pointer.await_of_ipld
    homestar.Runtime.Resources.insert homestar.Core.Input.Defs.input_to_ipld Scheduler.node_entry
    homestar.Core.Input.Defs.links homestar.Runtime.Resources.insert_new find_instruction_pointers
    homestar.Prelude.Table.select homestar.Runtime.Retrieve.init get_workflow_info
    homestar.Prelude.Table.first homestar.Runtime.Store.store_workflow homestar.Prelude.Table.exists
can_spawn s h = subst (λ (o : Scheduled). CanSpawn o) (some_inj.0 h) ((_, refl), tt)

run-new_example :
    let (result, after) =
      run two_cids same_text same same same_resource crates of_bytes fetch act worker in
    (result ≡ ok tt) × Keeps same_text worker.db after
run-new_example =
    run-new two_cids same_text same same same_resource crates of_bytes one_batch fetch act workflow
      none 5 empty_db worker worker_lem (λ rs. (_, refl)) can_spawn
      (λ now tasks. ((done_receipt, done_receipt_lem), tt))
