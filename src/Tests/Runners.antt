-- ===== src/Tests/Runners.antt =====
-- A runner with two workers, one of which expires, and a client's command.
use homestar.Prelude.{ℕ, ◌≡◌, refl, String, Bool, true, false, some, none, List, [], ◌∷◌, ◌==◌, map}
use homestar.Result.{Result, ok, err, to_option}
use homestar.Sample.{Value, same_text}
use homestar.Sample.Network.{net}
use homestar.Sample.Queue.{Entries, entries, entries_laws, value, insert_entry, poll_expired}
use homestar.Core.Pointer.{Pointer, new}
use homestar.Core.Task.{Workflow}
use homestar.Prelude.Table.{exists}
use homestar.Prelude.Vec.{All}
use homestar.Runtime.Receipt.{Failure, failed}
use homestar.Runtime.Resources as Index
use homestar.Runtime.Store.{find_receipt_by_cid}
use homestar.Runtime.Store.Consistent.{IsConsistent}
use homestar.Runtime.Worker.Start.{Worker}
use homestar.Runtime.Runner.{Runner, init, gc, append_or_insert}
use homestar.Runtime.Runner.Launch.{
  run_worker, provide_workflow, track, run, info_of, find_receipt_info_by_pointers,
}
use homestar.Runtime.Runner.Serve.{
  Moment, Arm, launched, appended, expires, serve, serve_arm, handle_command_message,
}
use homestar.Runtime.Runner.Entries.{IsTimed}
use homestar.Runtime.Runner.Timed.{serve-value, serve-IsTimed}
use homestar.Runtime.Runner.Collected.{
  IsAborted, expires-IsAborted, gc-IsRunning, unfinished, IsRunning,
}
use homestar.Runtime.Runner.Replayed.{find_receipt_info_by_pointers-find_receipt_by_cid}
use homestar.Runtime.Runner.Answers.{IsAnswered, run-IsAnswered}
use homestar.Tests.Execution.{Tables, receipt}
use homestar.Tests.Graphs.{two_cids, workflow, same, one_batch}

abbrev Node : Type 0
Node = Runner String String Entries ℕ ℕ ℕ net

abbrev empty_db : Tables
empty_db = record { workflows = []; receipts = []; workflows_receipts = [] }

abbrev worker_of : String → Worker String ℕ String String Value
worker_of c = record {
  graph = record { schedule = []; indexed_resources = record { map = [] } };
  workflow_name = c;
  workflow_info = record {
    cid = c;
    name = none;
    num_tasks = 0;
    progress = [];
    progress_count = 0;
    resources = record { map = [] };
  };
  workflow_started = 0;
  db = empty_db;
}

-- two workers, and the tasks of the second
abbrev arms : List (Bool × Arm String ℕ String String Value ℕ ℕ)
arms =
    (true, launched (ok (worker_of "slow")) 30 7 (ok empty_db))
    ∷ (true, launched (ok (worker_of "quick")) 20 8 (ok empty_db))
    ∷ (true, appended "quick" (1 ∷ 2 ∷ []))
    ∷ []

abbrev running : Node
running = serve entries two_cids same_text arms (init entries)

serve-value_example : value 1 running.expiration_queue ≡ some "quick"
unfolding serve serve_arm run_worker provide_workflow track insert_entry Index.insert Index.get
    append_or_insert
serve-value_example = serve-value net entries_laws two_cids same_text arms "quick" 8 1 refl

running-IsTimed : IsTimed entries same_text running
running-IsTimed = serve-IsTimed entries_laws two_cids same_text arms (init entries) (tt, tt)

abbrev left : Entries
left = some ("slow", 30) ∷ none ∷ []

expires-IsAborted_example :
    let t = serve_arm {V = Value} entries two_cids same_text true (expires 25) running in
    IsAborted same_text "quick" 8 running t × IsTimed entries same_text t
unfolding serve serve_arm run_worker provide_workflow track insert_entry Index.insert Index.get
    append_or_insert poll_expired
expires-IsAborted_example =
    expires-IsAborted Value entries_laws two_cids same_text 25 "quick" left 8 1 running
      running-IsTimed refl refl

abbrev is_seven : ℕ → Bool
is_seven h = h == 7

abbrev is_one : ℕ → Bool
is_one t = t == 1

gc-IsRunning_example :
    let (result, t) = gc entries true is_seven is_one running in
    ((c : String)
      → Index.get same_text c t.running_workers
        ≡ unfinished is_seven (Index.get same_text c running.running_workers))
    × All (IsRunning is_one) t.running_tasks
    × IsTimed entries same_text t
gc-IsRunning_example = gc-IsRunning entries_laws same_text is_seven is_one running running-IsTimed

abbrev stored_db : Tables
stored_db = record { workflows = []; receipts = receipt ∷ []; workflows_receipts = [] }

abbrev pointers : List (Pointer String)
pointers = new "unknown" ∷ receipt.cid ∷ []

stored_db-IsConsistent : IsConsistent same_text stored_db
unfolding exists
stored_db-IsConsistent = record { workflows = tt; receipts = (refl, tt); rows = tt; joined = tt }

find_receipt_info_by_pointers-find_receipt_by_cid_example :
    find_receipt_info_by_pointers two_cids same_text pointers (ok stored_db)
    ≡ ok (
        map
          (λ p.
            info_of two_cids same_text p.cid
              (to_option (find_receipt_by_cid same_text p.cid stored_db)))
          pointers)
find_receipt_info_by_pointers-find_receipt_by_cid_example =
    find_receipt_info_by_pointers-find_receipt_by_cid two_cids same_text pointers stored_db
      stored_db-IsConsistent

-- of two files, one has the workflow of two tasks
abbrev read : Bool → Result Failure (Workflow String ℕ String Value × ℕ)
read true = ok (workflow, 30)
read false = err failed

abbrev clock : ℕ → String
clock now = "noon"

abbrev moment : Moment String ℕ String String Value ℕ
moment = record { now = 5; free = true; handle = 9; meanwhile = λ made. ok empty_db }

run-IsAnswered_example : IsAnswered same_text moment.meanwhile {W = Bool} 9 running (
    handle_command_message entries two_cids same_text same same one_batch read clock 3 moment
      (run none true)
      empty_db
      running)
run-IsAnswered_example =
    run-IsAnswered entries two_cids same_text same same one_batch clock read 3 moment none true
      empty_db running
