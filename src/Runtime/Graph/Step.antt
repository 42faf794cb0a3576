-- ===== src/Runtime/Graph/Step.antt =====
-- What one step of the fold of `aot` adds.
use homestar.Prelude.{ℕ, ◌≡◌, sym, none, List, [], ◌∷◌}
use homestar.Prelude.Classes.{Eq}
use homestar.Result.{ok, >>=-eq-ok, map_err-eq-ok, ok-injective, map_err}
use homestar.Ipld.{Ipld}
use homestar.Foreign.{Foreign}
use homestar.Core.Pointer.{Pointer}
use homestar.Core.Input.Defs.{Parsed, deferreds, links}
use homestar.Core.Instruction.{Instruction, RunInstruction, expanded, ptr}
use homestar.Core.Task.{Task, instruction_cid, invocation_pointer}
use homestar.Wasm.Io.{parse}
use homestar.Runtime.Receipt.{any}
use homestar.Runtime.Resources as Index
use homestar.Runtime.Resources.{url}
use homestar.Runtime.Graph.{
  Vertex, DagNode, Aot, add_task, aot_step, expanded_of, known, push_links,
}

module _ {C F U T : Type 0} where
  expanded_of-eq-ok :
      (r : RunInstruction C F U T) {i : Instruction C F U T} → expanded_of r ≡ ok i → r ≡ expanded i
  expanded_of-eq-ok (expanded i) h = cc
  expanded_of-eq-ok (ptr p) h = cc

module _ {C F P U T : Type 0} (e : Foreign C F P U) (eq : Eq C) (into : T → Ipld C F)
    (from : Ipld C F → T) where
  -- the node of a task, before its reads
  abbrev pub node_of :
      ℕ → C → Instruction C F U T → Parsed C F T → Pointer C → DagNode (Vertex C F U T)
  node_of i c instr parsed invocation = record {
    vertex = record { instruction = instr; parsed = parsed; invocation = invocation };
    name = e.cid_to_string c;
    result = i;
    reads = [];
    barrier = none;
  }

  pub record Added (table : List (C × ℕ)) (i : ℕ) (t : Task C F U T) (s s' : Aot C F U T)
      : Type 0 where
    pub instr_cid : C
    pub instr : Instruction C F U T
    pub parsed : Parsed C F T
    pub invocation : Pointer C
    pub run_is : t.run ≡ expanded instr
    pub cid_is : instruction_cid e into t ≡ ok instr_cid
    pub parsed_is : parse e.serde from instr.input ≡ ok parsed
    pub invocation_is : invocation_pointer e into (record { task = t }) ≡ ok invocation
    pub after_is :
        s'
        ≡ add_task s
            (node_of i instr_cid instr parsed invocation)
            (known eq table (deferreds parsed.args.inner))
            (push_links eq instr_cid
              (links parsed.args.inner)
              (Index.insert_new eq instr_cid (url instr.rsc ∷ []) s.resources))

  pub aot_step-Added :
      (table : List (C × ℕ)) (i : ℕ) (t : Task C F U T) (s : Aot C F U T) {s' : Aot C F U T}
      → aot_step e eq into from table i t s ≡ ok s'
      → Added table i t s s'
  unfolding aot_step
  aot_step-Added table i t s h =
      let (c, hc, h1) = >>=-eq-ok (map_err any (instruction_cid e into t)) _ h in
      let (p, hp, h2) =
        >>=-eq-ok (map_err any (invocation_pointer e into (record { task = t }))) _ h1 in
      let (instr, hi, h3) = >>=-eq-ok (expanded_of t.run) _ h2 in
      let (parsed, hd, h4) = >>=-eq-ok (map_err any (parse e.serde from instr.input)) _ h3 in
      record {
        instr_cid = c;
        instr = instr;
        parsed = parsed;
        invocation = p;
        run_is = expanded_of-eq-ok t.run hi;
        cid_is = map_err-eq-ok any (instruction_cid e into t) hc;
        parsed_is = map_err-eq-ok any (parse e.serde from instr.input) hd;
        invocation_is = map_err-eq-ok any (invocation_pointer e into (record { task = t })) hp;
        after_is = sym (ok-injective h4);
      }
