-- ===== src/Tests/Graphs.antt =====
-- The graph of a workflow with two tasks, of which the second awaits the first.
use mathlib.Core.List.{Perm}
use homestar.Prelude.{ℕ, zero, ◌≡◌, refl, String, Option, some, none, List, [], ◌∷◌}
use homestar.Prelude.Vec.{All}
use homestar.Result.{Result, ok, err}
use homestar.Ipld.{map, string, null, list, link, Items, cons, nil, field, end}
use homestar.Foreign.{Foreign, IsForeign}
use homestar.Sample.{Value, foreign_code, same_text, serde-IsSerde}
use homestar.Core.Input.Defs.{plain, args_of_ipld}
use homestar.Wasm.Io.{parse}
use homestar.Core.Pointer.{Pointer}
use homestar.Runtime.Scheduler.{ExecutionGraph}
use homestar.Runtime.Scheduler.Search.{instructions}
use mathlib.Core.Path.{subst}
use mathlib.Core.Option.{some_inj}
use homestar.Core.Instruction.{Instruction, expanded, to_cid}
use homestar.Core.Nonce.{empty}
use homestar.Core.Task.{Task, Workflow, instruction_cid, invocation_pointer}
use homestar.Runtime.Resources.{IndexedResources}
use homestar.Runtime.Graph.{Vertex, DagNode, aot, graph}
use homestar.Runtime.Graph.Numbers.{labels, numbered, labels-aot}
use homestar.Runtime.Graph.Reads.{ReadsAwaited, aot-ReadsAwaited}
use homestar.Runtime.Graph.Entries.{instructions-graph}

-- the call of an instruction: a function with its arguments
abbrev call : Items String ℕ → Value
call args = map (field "args" (list args) (field "func" (string "add_one") end))

-- an instruction is encoded as 0 where it has no arguments
abbrev number : Value → ℕ
number (map (field _ (map (field _ (list nil) _)) _)) = 0
number x = 1

abbrev text_of : List ℕ → String
text_of (zero ∷ _) = "bafyone"
text_of _ = "bafytwo"

abbrev pub two_cids : Foreign String ℕ String String
two_cids = record foreign_code { encode = λ x. some (number x ∷ []); digest_v1 = text_of }

pub two_cids-IsForeign : IsForeign two_cids
two_cids-IsForeign = record {
  serde = serde-IsSerde;
  principal_text = λ p. refl;
  url_text = λ u. refl;
  cid_text = λ c. refl;
}

abbrev instruction : Items String ℕ → Instruction String ℕ String Value
instruction args = record {
  rsc = "ipfs://bafywasm";
  op = record { text = "wasm/run" };
  input = plain (call args);
  nnc = empty;
}

abbrev task : Items String ℕ → Task String ℕ String Value
task args = record {
  run = expanded (instruction args);
  cause = none;
  meta = null;
  prf = record { inner = [] };
}

abbrev awaits_first : Value
awaits_first = map (field "await/ok" (link "bafyone") end)

abbrev pub workflow : Workflow String ℕ String Value
workflow = record { tasks = task (cons awaits_first nil) ∷ task nil ∷ [] }

abbrev pub same : Value → Value
same x = x

abbrev pub Nodes : Type 0
Nodes = List (DagNode (Vertex String ℕ String Value))

abbrev pub value_or : {E A : Type 0} → A → Result E A → A
value_or a (ok b) = b
value_or a (err e) = a

abbrev pub made : Nodes × IndexedResources String String
made = value_or ([], record { map = [] }) (aot two_cids same_text same same workflow)

made_lem : aot two_cids same_text same same workflow ≡ ok (made.0, made.1)
unfolding aot instruction_cid to_cid invocation_pointer parse args_of_ipld
made_lem = refl

labels-aot_example : Perm (labels made.0) (numbered two_cids same_text same same 0 workflow.tasks)
labels-aot_example = labels-aot two_cids same_text same same workflow made.0 made.1 made_lem

aot-ReadsAwaited_example : All (ReadsAwaited two_cids same_text same same workflow.tasks) made.0
aot-ReadsAwaited_example =
    aot-ReadsAwaited two_cids same_text same same workflow made.0 made.1 made_lem

-- a batch of all nodes
abbrev pub one_batch : Nodes → Option (List Nodes)
one_batch dag = some (dag ∷ [])

one_batch_lem :
    (dag : Nodes) (batches : List Nodes)
    → one_batch dag ≡ some batches
    → (Q : DagNode (Vertex String ℕ String Value) → Type 0) → All Q dag
    → All (All Q) batches
one_batch_lem dag batches h Q q = subst (All (All Q)) (some_inj.0 h) (q, tt)

abbrev pub made_graph : ExecutionGraph String String (Vertex String ℕ String Value)
made_graph =
    value_or (record { schedule = []; indexed_resources = record { map = [] } })
      (graph two_cids same_text same same one_batch workflow)

instructions-graph_example :
    All
      (λ b.
        (ptrs : List (Pointer String)) × (instructions same_text two_cids.cid_from_str
            made_graph.indexed_resources b
          ≡ some ptrs))
      made_graph.schedule
instructions-graph_example =
    instructions-graph two_cids same_text same same two_cids-IsForeign one_batch one_batch_lem
      workflow made_graph
      (unfold graph instruction_cid to_cid invocation_pointer parse args_of_ipld in refl)
