-- ===== src/Tests/Instructions.antt =====
-- Inputs, instructions, tasks, workflows and receipts, written as Ipld and read back.
use homestar.Prelude.{ℕ, ◌≡◌, refl, String, some, none, [], ◌∷◌}
use homestar.Result.{ok}
use homestar.Ipld.{Fields, get, map, list, string, link, null, field, end, cons, nil}
use homestar.Sample.{Value, serde, serde-IsSerde, foreign_code, foreign_code-IsForeign}
use homestar.Core.Error.{Error, unknown}
use homestar.Core.Pointer.{result, pointer_of_ipld, new}
use homestar.Core.InstructionResult.{result_of_ipld}
use homestar.Core.Nonce.{nonce96, nonce_of_ipld}
use homestar.Core.Input.Defs.{Input, plain, deferred, input_to_ipld, input_of_ipld}
use homestar.Core.Input.Translate.{IsPlain, input_of_ipld-to_ipld}
use homestar.Core.Input.Readings.{ReadsAs, input_of_ipld-ReadsAs}
use homestar.Core.Instruction.{Instruction, resource_of, expanded, ptr, instruction_of_ipld}
use homestar.Core.Instruction.Laws.{IsWritable, op_of_ipld}
use homestar.Core.Principal.{ability_of_ipld, ability_deserialize}
use homestar.Core.Task.{Task, Invocation, Workflow, workflow_to_ipld, workflow_of_ipld}
use homestar.Core.Task.Laws.{workflow_of_ipld-to_ipld}
use homestar.Core.Receipt.{Receipt}
use homestar.Tests.Translation.{same, promise, odd_promise, outcome, twelve, twelve_bytes, proofs}

abbrev call : Value
call = map (field "func" (string "add_one") (field "args" (list (cons (odd_promise) nil)) end))

abbrev call_input : Input String ℕ Value
call_input = plain call

call-IsPlain : IsPlain same call
unfolding get
call-IsPlain = (refl, refl, refl)

input_of_ipld-to_ipld_example :
    input_of_ipld serde same (input_to_ipld same call_input) ≡ ok call_input
input_of_ipld-to_ipld_example =
    input_of_ipld-to_ipld serde serde-IsSerde same same (λ t. refl) call_input call-IsPlain

abbrev awaiting : Value
awaiting = map (field "await/ok" (link "bafyone") (field "other" null end))

abbrev awaited : Input String ℕ Value
awaited = deferred promise

input_of_ipld-ReadsAs_example : ReadsAs awaiting awaited
input_of_ipld-ReadsAs_example =
    input_of_ipld-ReadsAs serde serde-IsSerde awaiting awaited
      (unfold input_of_ipld get pointer_of_ipld result in refl)

abbrev no_promise : Value
no_promise = map (field "await/ok" null end)

abbrev link_error : Error String ℕ String
link_error = unknown

abbrev instruction : Instruction String ℕ String Value
instruction = record {
  rsc = "ipfs://bafywasm";
  op = record { text = " Wasm/Run" };
  input = call_input;
  nnc = nonce96 twelve;
}

instruction-IsWritable : IsWritable same instruction
instruction-IsWritable = record { input = call-IsPlain; nnc = refl }

abbrev instruction_fields : Fields String ℕ
instruction_fields =
    field "rsc" (string "ipfs://bafywasm")
      (field "op" (string " Wasm/Run") (field "input" call (field "nnc" twelve_bytes end)))

op_of_ipld_example :
    (get "op" instruction_fields ≡ some (string " Wasm/Run"))
    × (ability_of_ipld foreign_code (string " Wasm/Run") ≡ ok (record { text = " Wasm/Run" }))
op_of_ipld_example =
    op_of_ipld foreign_code foreign_code-IsForeign same instruction_fields instruction (
      unfold instruction_of_ipld input_of_ipld get result_of_ipld resource_of ability_deserialize
        nonce_of_ipld in
      refl)

abbrev fields_without_input : Fields String ℕ
fields_without_input = field "rsc" (string "ipfs://bafywasm") (field "op" (string "wasm/run") end)

abbrev task : Task String ℕ String Value
task = record {
  run = expanded instruction;
  cause = some (new "bafycause");
  meta = null;
  prf = proofs;
}

abbrev pointed_task : Task String ℕ String Value
pointed_task = record { run = ptr (new "bafyrun"); cause = none; meta = null; prf = proofs }

abbrev invocation : Invocation String ℕ String Value
invocation = record { task = task }

abbrev workflow : Workflow String ℕ String Value
workflow = record { tasks = task ∷ pointed_task ∷ [] }

workflow_of_ipld-to_ipld_example :
    workflow_of_ipld foreign_code same (workflow_to_ipld foreign_code same workflow) ≡ ok workflow
workflow_of_ipld-to_ipld_example =
    workflow_of_ipld-to_ipld foreign_code foreign_code-IsForeign same same (λ t. refl) workflow
      (instruction-IsWritable, (tt, tt))

abbrev receipt : Receipt String ℕ String
receipt = record {
  ran = new "bafyrun";
  out = outcome;
  meta = null;
  issuer = some (record { principal = "did:key:zone" });
  prf = proofs;
}
