-- ===== src/Runtime/Worker.antt =====
-- homestar-runtime/src/worker.rs: a workflow's tasks, run batch by batch. The tasks of a batch run
-- concurrently: what they look up and when they finish is a list of actions, in any order. The wasm
-- runtime is an argument, and so is the network's answer to a request. Failures of a connection to
-- the database and the events of the feature `websocket-notify` are left out.
pub mod Queue
pub mod Resolved
pub mod Grows
pub mod Latest
pub mod Joined
pub mod Start
pub mod Ended
use text.Mathlib.Text.{◌==◌}
use Prim.Native.Nat.{max}
use homestar.Prelude.{ℕ, ◌%◌, ◌^◌, String, Option, none, some, List, [], ◌∷◌, ◌++◌, if◌then◌else◌}
use homestar.Prelude.Classes.{Eq}
use homestar.Result.{Result, ok, err, ok_or, map_err, to_option, ◌>>=◌}
use homestar.Ipld.{Ipld, string, map, from_list}
use homestar.Foreign.{Foreign}
use homestar.Core.Pointer.{Pointer}
use homestar.Core.InstructionResult.{InstructionResult, success}
use homestar.Core.Proof as Proof
use homestar.Core.Input.Defs.{Args, Parsed}
use homestar.Core.Instruction.{Instruction, op_key, instruction_pointer}
use homestar.Core.Receipt as Invocation
use homestar.Wasm.Io as Io
use homestar.Wasm.Io.{Arg, Output, output_to_ipld, arg_to_ipld}
use homestar.Wasm.Value.Component.{Component}
use homestar.Runtime.Receipt.{Receipt, Failure, failed, any, try_with, output_as_arg}
use homestar.Runtime.Resources as Index
use homestar.Runtime.Resources.{Resource, cid, url}
use homestar.Runtime.Info.{Info, set_progress_count}
use homestar.Runtime.Scheduler.{LinkMap}
use homestar.Runtime.Store.{Db, commit_receipt, find_instruction_by_cid}
use homestar.Runtime.Graph.{Vertex}

-- `Event`, as far as the worker sends them
pub data Event (C U : Type 0) : Type 0 where
  find_record : C → Event C U
  captured_receipt : Pointer C → Info C U → Event C U

-- What a run reads and changes: the scheduler's link map and resources (`B` stands for their bytes),
-- the step it resumes from, the workflow's information, the database, and the events that were sent.
pub record Run (C F P U A B : Type 0) : Type 0 where
  pub linkmap : LinkMap C A
  pub resources : List (Resource C U × B)
  pub resume_step : Option ℕ
  pub info : Info C U
  pub db : Db C F P U
  pub sent : List (Event C U)

-- the value that `join_next` gives for a task that has run
pub record Done (C O I : Type 0) : Type 0 where
  pub output : O
  pub instruction : Pointer C
  pub invocation : Pointer C
  pub meta : I

-- What happens while the tasks of a batch run: a task looks up a CID, which the network answers if
-- it is asked; a task finishes; or it fails.
pub data Action (C F P O : Type 0) : Type 0 where
  look_up : C → Option (Receipt C F P) → Action C F P O
  finish : Done C O (Ipld C F) → Action C F P O
  fail : Action C F P O

module _ {C F P U A B : Type 0} (eq : Eq C) (eq_rsc : Eq (Resource C U)) (from : Ipld C F → A)
    (of_bytes : B → A) where
  -- `Db::commit_receipt(..).unwrap_or(found.receipt)`, whose result enters the link map
  unfoldable pub take_found :
      C → Receipt C F P → Run C F P U A B → Option (InstructionResult A) × Run C F P U A B
  take_found c found s =
      let (committed, db) = commit_receipt eq s.info.cid found s.db in
      let result = output_as_arg from (elim committed [ ok receipt ↦ receipt | err _ ↦ found ]) in
      (some result, record s { linkmap = Index.insert_new eq c result s.linkmap; db = db })

  -- `Event::FindRecord` and the answer before the deadline, where `none` is each `UnresolvedCid`
  unfoldable pub ask :
      C → Option (Receipt C F P) → Run C F P U A B → Option (InstructionResult A) × Run C F P U A B
  unfolding take_found
  ask c none s = (none, record s { sent = s.sent ++ find_record c ∷ [] })
  ask c (some found) s = take_found c found (record s { sent = s.sent ++ find_record c ∷ [] })

  -- `match Db::find_instruction_by_cid(cid, conn)`
  unfoldable pub look_in_db :
      C → Option (Receipt C F P) → Run C F P U A B → Option (InstructionResult A) × Run C F P U A B
  unfolding ask
  look_in_db c answer s = elim (find_instruction_by_cid eq c s.db) [
    | ok found ↦ (some (output_as_arg from found), s)
    | err _ ↦ ask c answer s
  ]

  unfoldable pub look_in_resources :
      C → Option (Receipt C F P) → Run C F P U A B → Option (InstructionResult A) × Run C F P U A B
  unfolding look_in_db
  look_in_resources c answer s = elim (Index.get eq_rsc (cid c) s.resources) [
    | some bytes ↦ (some (success (of_bytes bytes)), s)
    | none ↦ look_in_db c answer s
  ]

  -- `resolve_cid`
  unfoldable pub resolve_cid :
      C → Option (Receipt C F P) → Run C F P U A B → Option (InstructionResult A) × Run C F P U A B
  unfolding look_in_resources
  resolve_cid c answer s = elim (Index.get eq c s.linkmap) [
    | some result ↦ (some result, s)
    | none ↦ look_in_resources c answer s
  ]

-- `if let Some(step) = scheduler.resume_step`: the progress is at least the step, as a `u32`
unfoldable pub resumed : {C U : Type 0} → Option ℕ → Info C U → Info C U
resumed none i = i
resumed (some step) i = set_progress_count i (max i.progress_count (step % 2 ^ 32))

module _ {C F P U G H V D : Type 0} (e : Foreign C F P U) (w : Component C F G H V D) where
  -- the receipt of a task that has run
  unfoldable pub receipt_of : Done C (Output F G H V) (Ipld C F) → Result Failure (Receipt C F P)
  receipt_of d = do
    output_to_store ← map_err any (output_to_ipld w d.output)
    try_with e d.instruction (record {
      ran = d.invocation;
      out = success output_to_store;
      meta = d.meta;
      issuer = none;
      prf = Proof.default;
    })

module _ {C F P U A B G H V D : Type 0} (e : Foreign C F P U) (eq : Eq C)
    (w : Component C F G H V D) (from : Ipld C F → A) where
  -- the receipt enters the link map and the database, and the event handler is told
  unfoldable pub store_finished :
      Receipt C F P → Run C F P U A B → Result Failure (Unit {0}) × Run C F P U A B
  unfolding resumed
  store_finished r s =
      let linkmap = Index.insert eq r.instruction.cid (output_as_arg from r) s.linkmap in
      let info = resumed s.resume_step s.info in
      let (committed, db) = commit_receipt eq info.cid r s.db in
      let after = record s { linkmap = linkmap; info = info; db = db } in
      elim committed [
        | ok stored ↦
            (ok tt, record after { sent = after.sent ++ captured_receipt stored.cid info ∷ [] })
        | err _ ↦ (err failed, after)
      ]

  -- one round of `while let Some(res) = task_set.join_next().await`, with a task that has run
  unfoldable pub join :
      Done C (Output F G H V) (Ipld C F)
      → Run C F P U A B
      → Result Failure (Unit {0}) × Run C F P U A B
  unfolding receipt_of store_finished
  join d s = elim (receipt_of e w d) [ ok r ↦ store_finished r s | err failure ↦ (err failure, s) ]
