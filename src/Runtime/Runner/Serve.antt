-- ===== src/Runtime/Runner/Serve.antt =====
-- `serve` and `handle_command_message` of homestar-runtime/src/runner.rs: a client's command and the
-- reply it is sent, and the arms of the loop that change the runner. A shutdown is taken to end
-- before its timeout.
use homestar.Prelude.{ℕ, String, Bool, true, Option, none, some, List, [], ◌∷◌, if◌then◌else◌}
use homestar.Prelude.Classes.{Eq}
use homestar.Result.{Result, ok, err}
use homestar.Ipld.{Ipld}
use homestar.Foreign.{Foreign}
use homestar.Core.Task.{Workflow}
use homestar.Runtime.Receipt.{Failure}
use homestar.Runtime.Store.{Db}
use homestar.Runtime.Graph.{DagNode, Vertex}
use homestar.Runtime.Handler.{Net}
use homestar.Runtime.Worker.Start.{Worker, new}
use homestar.Runtime.Runner.{DelayQueue, Runner, append_or_insert, gc, abort_worker}
use homestar.Runtime.Runner.Launch.{
  WorkflowData, ServerMessage, shutdown_cmd, run, run_ack, run_err, skip, ControlFlow, break_loop,
  continue_with, run_worker, new_ack, shut_down,
}

-- What a run needs besides the runner: the wall clock, whether the queue can be borrowed, the handle
-- of the worker that is spawned, and what database the worker makes of its own before the receipts
-- are read.
pub record Moment (C F P U A J : Type 0) : Type 0 where
  pub now : ℕ
  pub free : Bool
  pub handle : J
  pub meanwhile : Result Failure (Worker C F P U A) → Result Failure (Db C F P U)

module _ {C U Q K J A W : Type 0} {net : Net} where
  unfoldable pub acknowledged :
      (ℕ → String)
      → Result Failure (WorkflowData C U) × Runner C U Q K J A net
      → Result Failure (ControlFlow C U W) × Runner C U Q K J A net
  unfolding new_ack
  acknowledged format (err failure, s) = (err failure, s)
  acknowledged format (ok d, s) = (ok (continue_with (run_ack (new_ack format d))), s)

module _ {C F P U T Q K J A : Type 0} {net : Net} (dq : DelayQueue C Q K) (e : Foreign C F P U)
    (eq : Eq C) (into : T → Ipld C F) (from : Ipld C F → T)
    (build_schedule : List (DagNode (Vertex C F U T))
      → Option (List (List (DagNode (Vertex C F U T))))) where
  -- a worker is made and run, as for a command and for a client of the webserver
  unfoldable pub launch :
      Moment C F P U T J
      → Workflow C F U T
      → Option String
      → ℕ
      → Db C F P U
      → Runner C U Q K J A net
      → Result Failure (WorkflowData C U) × Runner C U Q K J A net
  unfolding new run_worker
  launch m workflow name timeout db s =
      let made = new e eq into from build_schedule workflow name m.now db in
      run_worker dq e eq m.free made timeout m.handle (m.meanwhile made) s

  -- a workflow's file that was read and parsed, with the timeout of its settings
  unfoldable pub run_file :
      {W : Type 0}
      → (ℕ → String)
      → Moment C F P U T J
      → Result Failure (Workflow C F U T × ℕ)
      → Option String
      → Db C F P U
      → Runner C U Q K J A net
      → Result Failure (ControlFlow C U W) × Runner C U Q K J A net
  unfolding launch acknowledged
  run_file format m (err failure) name db s = (err failure, s)
  run_file format m (ok (workflow, timeout)) name db s =
      acknowledged format (launch m workflow name timeout db s)

  -- `handle_command_message`, where `read` is `validate_and_parse`
  unfoldable pub handle_command_message :
      {W : Type 0}
      → (W → Result Failure (Workflow C F U T × ℕ))
      → (ℕ → String)
      → net.Sender
      → Moment C F P U T J
      → ServerMessage C U W
      → Db C F P U
      → Runner C U Q K J A net
      → Result Failure (ControlFlow C U W) × Runner C U Q K J A net
  unfolding shut_down run_file
  handle_command_message read format sender m shutdown_cmd db s =
      (ok break_loop, shut_down sender s)
  handle_command_message read format sender m (run name file) db s =
      run_file format m (read file) name db s
  handle_command_message read format sender m _ db s = (ok (continue_with skip), s)

-- what the loop of `serve` sends back for a command; `none` where it sends nothing
unfoldable pub reply :
    {C U W : Type 0} → Result Failure (ControlFlow C U W) → Option (ServerMessage C U W)
reply (err failure) = some (run_err failure)
reply (ok (continue_with (run_ack ack))) = some (run_ack ack)
reply (ok _) = none

-- The other arms of the loop, a run of a worker that was made, and what a running worker does to the
-- running tasks.
pub data Arm (C F P U V J A : Type 0) : Type 0 where
  launched :
      Result Failure (Worker C F P U V) → ℕ → J → Result Failure (Db C F P U) → Arm C F P U V J A
  dropped : C → Arm C F P U V J A
  tick : (J → Bool) → (A → Bool) → Arm C F P U V J A
  expires : ℕ → Arm C F P U V J A
  appended : C → List A → Arm C F P U V J A

module _ {C U Q K J A : Type 0} {net : Net} (dq : DelayQueue C Q K) (eq : Eq C) where
  -- `Some(expired) = poll_fn(..)`, whose entry has left the queue
  unfoldable pub expired_of : Option (C × Q) → Runner C U Q K J A net → Runner C U Q K J A net
  unfolding abort_worker
  expired_of none s = s
  expired_of (some (c, rest)) s =
      (abort_worker dq eq true c (record s { expiration_queue = rest })).1

module _ {C F P U V Q K J A : Type 0} {net : Net} (dq : DelayQueue C Q K) (e : Foreign C F P U)
    (eq : Eq C) where
  unfoldable pub serve_arm :
      Bool → Arm C F P U V J A → Runner C U Q K J A net → Runner C U Q K J A net
  unfolding run_worker abort_worker gc expired_of append_or_insert
  serve_arm free (launched made timeout handle db) s =
      (run_worker dq e eq free made timeout handle db s).1
  serve_arm free (dropped c) s = (abort_worker dq eq free c s).1
  serve_arm free (tick is_finished task_is_finished) s =
      (gc dq free is_finished task_is_finished s).1
  serve_arm free (expires now) s =
      if free then expired_of dq eq (dq.poll_expired now s.expiration_queue) s else s
  serve_arm free (appended c handles) s = record s {
    running_tasks = append_or_insert eq c handles s.running_tasks;
  }

  unfoldable pub serve :
      List (Bool × Arm C F P U V J A) → Runner C U Q K J A net → Runner C U Q K J A net
  unfolding serve_arm
  serve [] s = s
  serve ((free, arm) ∷ arms) s = serve arms (serve_arm free arm s)
