-- ===== src/Runtime/Graph.antt =====
-- `Builder` of homestar-runtime/src/workflow.rs: the graph of a workflow's tasks. A node of the crate
-- dagga is the record of what the code gives it; the order of a graph in batches, `build_schedule`, is
-- an argument.
pub mod Step
pub mod Lookup
pub mod Numbers
pub mod Reads
pub mod Entries
use mathlib.Core.Option
use homestar.Prelude.{
  ℕ, suc, ◌+◌, ◌==◌, String, Bool, true, false, Option, none, some, List, [], ◌∷◌, ◌++◌, map, ◌||◌,
  if◌then◌else◌,
}
use homestar.Prelude.Classes.{Eq}
use homestar.Result.{Result, ok, err, ok_or, map_err, ◌>>=◌}
use homestar.Ipld.{Ipld}
use homestar.Foreign.{Foreign}
use homestar.Core.Error.{Error}
use homestar.Core.Pointer.{Pointer}
use homestar.Core.Input.Defs.{Input, Parsed, deferreds, links}
use homestar.Core.Instruction.{Instruction, RunInstruction, expanded, ptr}
use homestar.Core.Task.{Task, Workflow, instruction_cid, invocation_pointer}
use homestar.Wasm.Io.{parse}
use homestar.Runtime.Receipt.{Failure, failed, any}
use homestar.Runtime.Resources as Index
use homestar.Runtime.Resources.{Resource, url, cid, IndexedResources}
use homestar.Runtime.Scheduler.{Node, ExecutionGraph}

pub record Vertex (C F U T : Type 0) : Type 0 where
  pub instruction : Instruction C F U T
  pub parsed : Parsed C F T
  pub invocation : Pointer C

-- `dagga::Node`
pub record DagNode (V : Type 0) : Type 0 where
  pub vertex : V
  pub name : String
  pub result : ℕ
  pub reads : List ℕ
  pub barrier : Option ℕ

-- the accumulator of the fold over the tasks
pub record Aot (C F U T : Type 0) : Type 0 where
  pub dag : List (DagNode (Vertex C F U T))
  pub unawaits : List (DagNode (Vertex C F U T))
  pub awaited : List ℕ
  pub resources : List (C × List (Resource C U))

abbrev pub empty : {C F U T : Type 0} → Aot C F U T
empty = record { dag = []; unawaits = []; awaited = []; resources = [] }

-- the `filter_map` of the reads
unfoldable pub known : {C : Type 0} → Eq C → List (C × ℕ) → List C → List ℕ
known eq table [] = []
known eq table (c ∷ cs) =
    let rest = known eq table cs in elim (Index.get eq c table) [ some i ↦ i ∷ rest | none ↦ rest ]

-- `entry(k).and_modify(|rscs| rscs.push(r)).or_insert_with(|| vec![r])`
unfoldable pub push_resource :
    {C U : Type 0}
    → Eq C
    → C
    → Resource C U
    → List (C × List (Resource C U))
    → List (C × List (Resource C U))
push_resource eq k r [] = (k, r ∷ []) ∷ []
push_resource eq k r ((j, rs) ∷ m) =
    if eq.beq k j then (j, rs ++ r ∷ []) ∷ m else (j, rs) ∷ push_resource eq k r m

unfoldable pub push_links :
    {C U : Type 0}
    → Eq C
    → C
    → List C
    → List (C × List (Resource C U))
    → List (C × List (Resource C U))
unfolding push_resource
push_links eq k [] m = m
push_links eq k (c ∷ cs) m = push_links eq k cs (push_resource eq k (cid c) m)

-- `let RunInstruction::Expanded(instr) = .. else { bail!(..) }`
abbrev pub expanded_of :
    {C F U T : Type 0} → RunInstruction C F U T → Result Failure (Instruction C F U T)
expanded_of (expanded i) = ok i
expanded_of (ptr p) = err failed

-- `if !reads.is_empty() { dag.add_node(..) } else { unawaits.push(..) }`
unfoldable pub add_task :
    {C F U T : Type 0}
    → Aot C F U T
    → DagNode (Vertex C F U T)
    → List ℕ
    → List (C × List (Resource C U))
    → Aot C F U T
add_task s node [] resources = record s {
  unawaits = s.unawaits ++ node ∷ [];
  resources = resources;
}
add_task s node (r ∷ rs) resources = record s {
  dag = s.dag ++ record node { reads = r ∷ rs } ∷ [];
  awaited = s.awaited ++ r ∷ rs;
  resources = resources;
}

-- `awaited.contains(r)`
unfoldable pub contains : ℕ → List ℕ → Bool
contains r [] = false
contains r (i ∷ is) = r == i || contains r is

-- a node that nothing awaits has a barrier
unfoldable pub place : {V : Type 0} → List ℕ → DagNode V → DagNode V
unfolding contains
place awaited n = if contains n.result awaited then n else record n { barrier = some 1 }

abbrev pub to_node : {V : Type 0} → DagNode V → Node V
to_node n = record { name = n.name; vertex = n.vertex }

module _ {C F P U T : Type 0} (e : Foreign C F P U) (eq : Eq C) (into : T → Ipld C F)
    (from : Ipld C F → T) where
  -- the fold of `lookup_table`, from the task with number `i`
  unfoldable pub lookup_from :
      ℕ → List (Task C F U T) → List (C × ℕ) → Result Failure (List (C × ℕ))
  lookup_from i [] table = ok table
  lookup_from i (t ∷ ts) table = do
    c ← map_err any (instruction_cid e into t)
    lookup_from (i + 1) ts (Index.insert eq c i table)

  -- `lookup_table`
  unfoldable pub lookup_table : Workflow C F U T → Result Failure (List (C × ℕ))
  unfolding lookup_from
  lookup_table w = lookup_from 0 w.tasks []

  -- one step of the fold of `aot`
  unfoldable pub aot_step :
      List (C × ℕ) → ℕ → Task C F U T → Aot C F U T → Result Failure (Aot C F U T)
  unfolding add_task push_links known
  aot_step table i task s = do
    instr_cid ← map_err any (instruction_cid e into task)
    invocation ← map_err any (invocation_pointer e into (record { task = task }))
    instr ← expanded_of task.run
    parsed ← map_err any (parse e.serde from instr.input)
    ok (
        add_task s
          (record {
            vertex = record { instruction = instr; parsed = parsed; invocation = invocation };
            name = e.cid_to_string instr_cid;
            result = i;
            reads = [];
            barrier = none;
          })
          (known eq table (deferreds parsed.args.inner))
          (push_links eq instr_cid (links parsed.args.inner)
            (Index.insert_new eq instr_cid (url instr.rsc ∷ []) s.resources)))

  unfoldable pub aot_fold :
      List (C × ℕ) → ℕ → List (Task C F U T) → Aot C F U T → Result Failure (Aot C F U T)
  unfolding aot_step
  aot_fold table i [] s = ok s
  aot_fold table i (t ∷ ts) s = do s' ← aot_step table i t s; aot_fold table (i + 1) ts s'

  -- `aot`: the nodes in the order in which they are added, and the resources
  unfoldable pub aot :
      Workflow C F U T → Result Failure (List (DagNode (Vertex C F U T)) × IndexedResources C U)
  unfolding lookup_table aot_fold place
  aot w = do
    table ← lookup_table w
    s ← aot_fold table 0 w.tasks empty
    ok (s.dag ++ map (place s.awaited) s.unawaits, record { map = s.resources })

  -- `graph`
  unfoldable pub graph :
      (List (DagNode (Vertex C F U T)) → Option (List (List (DagNode (Vertex C F U T)))))
      → Workflow C F U T
      → Result Failure (ExecutionGraph C U (Vertex C F U T))
  unfolding aot
  graph build_schedule w = do
    (dag, resources) ← aot w
    batches ← ok_or (build_schedule dag) failed
    ok (record { schedule = map (map to_node) batches; indexed_resources = resources })
