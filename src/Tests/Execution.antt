-- ===== src/Tests/Execution.antt =====
-- Receipts that are stored and committed, and a workflow that is resumed from them.
use homestar.Prelude.{ℕ, ◌≡◌, refl, String, true, false, some, none, [], ◌∷◌, ◌⊎◌}
use homestar.Prelude.Int.{pos}
use homestar.Prelude.Table.{exists, first, select}
use homestar.Result.{ok, err}
use homestar.Ipld.{string, null}
use homestar.Sample.{foreign_code, same_text}
use homestar.Core.Pointer.{new}
use homestar.Core.InstructionResult.{success}
use homestar.Core.Receipt as Invocation
use homestar.Core.Instruction.{to_cid}
use homestar.Runtime.Receipt.{Receipt, try_with, invocation_version}
use homestar.Runtime.Receipt.Laws.{IsStoredOf, try_with-IsStoredOf}
use homestar.Runtime.Resources.{IndexedResources, url}
use homestar.Runtime.Info.{Stored, Info}
use homestar.Runtime.Store.{
  foreign_key_violation, Db, is_workflow, commit_receipt, select_workflow, get_workflow_info,
}
use homestar.Runtime.Store.Consistent.{IsConsistent, commit_receipt-IsConsistent}
use homestar.Runtime.Store.Commit.{IsCommitted, commit_receipt_lem}
use homestar.Runtime.Store.View.{view, commit_view, view-commit_receipt}
use homestar.Runtime.Retrieve.{init}
use homestar.Runtime.Retrieve.Names.{init-renamed, renamed}

abbrev pub from_instruction : Invocation.Receipt String ℕ String
from_instruction = record {
  ran = new "bafyone";
  out = success (string "done");
  meta = null;
  issuer = none;
  prf = record { inner = [] };
}

abbrev pub receipt : Receipt String ℕ String
receipt = record {
  cid = new "bafysample";
  ran = new "bafyone";
  instruction = new "bafyone";
  out = success (string "done");
  meta = null;
  issuer = none;
  prf = record { inner = [] };
  version = invocation_version;
}

try_with-IsStoredOf_example : IsStoredOf foreign_code (new "bafyone") from_instruction receipt
try_with-IsStoredOf_example =
    try_with-IsStoredOf foreign_code (new "bafyone") from_instruction receipt
      (unfold try_with to_cid in refl)

abbrev pub resources : IndexedResources String String
resources = record { map = ("bafyone", []) ∷ ("bafytwo", url "ipfs://bafywasm" ∷ []) ∷ [] }

abbrev pub stored : Stored String String
stored = record {
  cid = new "bafyflow";
  name = none;
  num_tasks = pos 2;
  resources = resources;
  created_at = 5;
  completed_at = none;
}

abbrev pub Tables : Type 0
Tables = Db String ℕ String String

abbrev pub db : Tables
db = record { workflows = stored ∷ []; receipts = []; workflows_receipts = [] }

pub db-IsConsistent : IsConsistent same_text db
unfolding exists
db-IsConsistent = record { workflows = (refl, tt); receipts = tt; rows = tt; joined = tt }

commit_receipt-IsConsistent_example :
    IsConsistent same_text (commit_receipt same_text "bafyflow" receipt db).1
commit_receipt-IsConsistent_example =
    commit_receipt-IsConsistent same_text "bafyflow" receipt db db-IsConsistent

commit_receipt_lem_example :
    ((exists (is_workflow same_text "bafyother") db.workflows ≡ true)
      × ((commit_receipt same_text "bafyother" receipt db).0 ≡ ok receipt)
      × IsCommitted same_text "bafyother" receipt
          (commit_receipt same_text "bafyother" receipt db).1)
    ⊎ ((exists (is_workflow same_text "bafyother") db.workflows ≡ false)
        × ((commit_receipt same_text "bafyother" receipt db).0 ≡ err foreign_key_violation)
        × ((commit_receipt same_text "bafyother" receipt db).1 ≡ db))
commit_receipt_lem_example = commit_receipt_lem same_text "bafyother" receipt db db-IsConsistent

abbrev pub committed_db : Tables
committed_db = record {
  workflows = stored ∷ [];
  receipts = receipt ∷ [];
  workflows_receipts = record { workflow_cid = "bafyflow"; receipt_cid = "bafysample" } ∷ [];
}

-- a second workflow, under its own name
abbrev named_db : Tables
named_db = record committed_db {
  workflows =
      record stored { name = some "first" }
      ∷ record stored { cid = new "bafyother"; name = some "second"; created_at = 2 }
      ∷ [];
}

abbrev named_info : Info String String
named_info = record {
  cid = "bafyflow";
  name = some "first";
  num_tasks = 2;
  progress = "bafysample" ∷ [];
  progress_count = 1;
  resources = resources;
}

abbrev second_workflow : Stored String String
second_workflow = record stored { cid = new "bafyother"; name = some "second"; created_at = 2 }

init-renamed_example :
    let (result, after) = init same_text "bafyflow" 2 "again" resources 9 named_db in
    (result ≡ (named_info, 9))
    × (select_workflow same_text "bafyother" after ≡ ok (renamed "again" 9 second_workflow))
unfolding get_workflow_info select_workflow first select homestar.Runtime.Info.new
init-renamed_example =
    init-renamed same_text "bafyflow" 2 "again" "first" resources 9 named_info named_db refl refl
      "bafyother" second_workflow refl

abbrev second_receipt : Receipt String ℕ String
second_receipt = record receipt { meta = string "again" }

view-commit_receipt_example :
    view same_text (commit_receipt same_text "bafyflow" receipt db).1
    ≡ commit_view same_text "bafyflow" "bafysample" (view same_text db)
view-commit_receipt_example = view-commit_receipt same_text "bafyflow" receipt db db-IsConsistent
