-- ===== src/Tests/Runs.antt =====
-- A run of a queue in which one task finishes.
use homestar.Prelude.{ℕ, ◌≡◌, refl, String, Option, some, none, List, [], ◌∷◌}
use homestar.Prelude.Table.{exists, first}
use homestar.Result.{ok, err}
use homestar.Ipld.{null, bytes}
use homestar.Sample.{Value, foreign_code, same_text, same_resource}
use homestar.Sample.Wasm.{component}
use homestar.Core.Nonce.{empty}
use homestar.Core.Input.Defs.{plain, parsed_with_fn}
use homestar.Runtime.Graph.{Vertex}
use homestar.Runtime.Scheduler.{Schedule}
use homestar.Core.Pointer.{new}
use homestar.Core.InstructionResult.{InstructionResult}
use homestar.Core.Instruction.{to_cid}
use homestar.Wasm.Value.{Val}
use homestar.Wasm.Value.Component.{Component}
use homestar.Wasm.Value.Write.{to_ipld}
use homestar.Wasm.Io.{Output, output_to_ipld}
use homestar.Runtime.Receipt.{Receipt, output_as_arg, try_with}
use homestar.Runtime.Resources.{url, get}
use homestar.Runtime.Store.{find_instruction_by_cid, commit_receipt}
use homestar.Runtime.Store.Commit.{IsCommitted}
use homestar.Runtime.Worker.{Run, Done, Action, look_up, finish, resolve_cid, receipt_of, join}
use homestar.Runtime.Worker.Queue.{Spawned, run_actions, run_queue}
use homestar.Runtime.Worker.Resolved.{resolve_cid_again}
use homestar.Runtime.Worker.Grows.{Grows, run_queue-Grows}
use homestar.Runtime.Worker.Joined.{AreStored, resolve_cid-join, run_actions-AreStored}
use homestar.Tests.Execution.{db, receipt}
use homestar.Tests.Scheduling.{info}

abbrev pub crates : Component String ℕ ℕ (Unit {0}) (Unit {0}) (Unit {0})
crates = component (λ c. c) (λ t. some t)

abbrev same : Value → Value
same x = x

abbrev pub of_bytes : List ℕ → Value
of_bytes b = bytes b

abbrev pub State : Type 0
State = Run String ℕ String String Value (List ℕ)

abbrev start : State
start = record { linkmap = []; resources = []; resume_step = none; info = info; db = db; sent = [] }

-- The network answers a request for an instruction that the database does not know.
abbrev asked : Option (InstructionResult Value) × State
asked = resolve_cid same_text same_resource same of_bytes "bafyone" (some receipt) start

resolve_cid_again_example :
    resolve_cid same_text same_resource same of_bytes "bafyone" none asked.1
    ≡ (some (output_as_arg same receipt), asked.1)
resolve_cid_again_example =
    resolve_cid_again same_text same_resource same of_bytes "bafyone" (some receipt) none start
      asked.1 (output_as_arg same receipt)
      (unfold resolve_cid get find_instruction_by_cid first commit_receipt exists in refl)

abbrev pub Wasm : Type 0
Wasm = Output ℕ ℕ (Unit {0}) (Unit {0})

abbrev pub done : Done String Wasm Value
done = record {
  output = Output.value (Val.u32 7);
  instruction = new "bafytwo";
  invocation = new "bafyrun";
  meta = null;
}

abbrev made : Receipt String ℕ String
made = elim (receipt_of foreign_code crates done) [ ok r ↦ r | err _ ↦ receipt ]

made_lem : receipt_of foreign_code crates done ≡ ok made
unfolding receipt_of try_with to_cid output_to_ipld to_ipld
made_lem = refl

resolve_cid-join_example :
    let (result, after) = join foreign_code same_text crates same done start in
    (result ≡ ok tt)
    × IsCommitted same_text after.info.cid made after.db
    × (resolve_cid same_text same_resource same of_bytes made.instruction.cid none after
        ≡ (some (output_as_arg same made), after))
resolve_cid-join_example =
    resolve_cid-join foreign_code same_text crates same same_resource of_bytes done made start none
      (unfold exists in refl) made_lem

abbrev pub actions : List (Action String ℕ String Wasm)
actions = look_up "bafyone" (some receipt) ∷ finish done ∷ []

run_actions-AreStored_example :
    let (result, after) =
      run_actions foreign_code same_text same_resource crates same of_bytes actions start in
    (result ≡ ok tt) × AreStored foreign_code same_text crates same after actions
run_actions-AreStored_example =
    run_actions-AreStored foreign_code same_text crates same same_resource of_bytes actions start
      (unfold exists in refl) (tt, ((made, made_lem), tt))

abbrev vertex : Vertex String ℕ String Value
vertex = record {
  instruction = record {
    rsc = "ipfs://bafywasm";
    op = record { text = "wasm/run" };
    input = plain null;
    nnc = empty;
  };
  parsed = parsed_with_fn "add_one" (record { inner = [] });
  invocation = new "bafyrun";
}

abbrev schedule : Schedule (Vertex String ℕ String Value)
schedule = (record { name = "bafytwo"; vertex = vertex } ∷ []) ∷ []

abbrev fetched : State
fetched = record start { resources = (url "ipfs://bafywasm", 0 ∷ []) ∷ [] }

abbrev pub Task : Type 0
Task = Spawned String ℕ Value (List ℕ)

abbrev pub act : State → List Task → List (Action String ℕ String Wasm)
act s tasks = actions

run_queue-Grows_example :
    Grows same_text fetched
      (run_queue foreign_code same_text same_resource crates same of_bytes same act schedule
        fetched).1
run_queue-Grows_example =
    run_queue-Grows foreign_code same_text crates same same_resource of_bytes same act schedule
      fetched
