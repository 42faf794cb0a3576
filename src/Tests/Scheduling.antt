-- ===== src/Tests/Scheduling.antt =====
-- Progress that is counted, and a workflow that is resumed from its receipts.
use homestar.Prelude.{
  ℕ, ◌+◌, ◌≡◌, refl, String, Option, some, none, List, [], ◌∷◌, map, arith, length,
}
use homestar.Sample.{Value, same_text}
use homestar.Core.Pointer.{Pointer}
use homestar.Runtime.Receipt.{Receipt}
use homestar.Runtime.Resources.{Resource}
use homestar.Runtime.Info.{Info, increment_all}
use homestar.Runtime.Info.Counts.{increment_all-counts}
use homestar.Runtime.Store.{find_instruction_pointers}
use homestar.Runtime.Scheduler.{Batch, Found, ExecutionGraph, TaskScheduler, init}
use homestar.Runtime.Scheduler.Search.{has_run}
use homestar.Runtime.Scheduler.Resume.{ResumedAt, init_lem}
use homestar.Tests.Execution.{resources, Tables, committed_db}

abbrev pub info : Info String String
info = record {
  cid = "bafyflow";
  name = none;
  num_tasks = 2;
  progress = [];
  progress_count = 0;
  resources = resources;
}

increment_all-counts_example :
    ((increment_all info ("bafya" ∷ "bafyb" ∷ [])).progress ≡ "bafya" ∷ "bafyb" ∷ [])
    × ((increment_all info ("bafya" ∷ "bafyb" ∷ [])).progress_count
        ≡ length (increment_all info ("bafya" ∷ "bafyb" ∷ [])).progress + 1)
increment_all-counts_example = increment_all-counts info "bafya" ("bafyb" ∷ []) (ground arith)

abbrev found_of : Receipt String ℕ String → Found String Value
found_of r = record { instruction = r.instruction.cid; output = r.out }

-- the receipts of a database, as the scheduler reads them
abbrev find_in : Tables → List (Pointer String) → Option (List (Found String Value))
find_in tables ptrs = some (map found_of (find_instruction_pointers same_text ptrs tables))

abbrev parse : String → Option String
parse t = some t

abbrev fetch_all : List (Resource String String) → Option (List (Resource String String × ℕ))
fetch_all rscs = some (map (λ r. (r, 0)) rscs)

abbrev first_batch : Batch ℕ
first_batch = record { name = "bafyone"; vertex = 0 } ∷ []

abbrev second_batch : Batch ℕ
second_batch = record { name = "bafytwo"; vertex = 1 } ∷ []

abbrev graph : ExecutionGraph String String ℕ
graph = record { schedule = first_batch ∷ second_batch ∷ []; indexed_resources = resources }

abbrev Scheduler : Type 0
Scheduler = TaskScheduler String String ℕ Value ℕ

init_lem_example :
    (s : Scheduler) × (init same_text parse (find_in committed_db) fetch_all graph ≡ some s)
    × ResumedAt
        (has_run same_text parse (find_in committed_db) resources)
        graph.schedule
        s.ran
        s.run
        s.resume_step
init_lem_example =
    init_lem same_text parse (find_in committed_db) fetch_all graph
      (λ rscs. (map (λ r. (r, 0)) rscs, refl))
