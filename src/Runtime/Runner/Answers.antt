-- ===== src/Runtime/Runner/Answers.antt =====
-- The reply to a command of a client, and what the runner is then.
use homestar.Prelude.{
  ℕ, ◌≡◌, refl, String, Bool, true, false, Option, none, some, List, ◌∷◌, [], ◌⊎◌, inl, inr, ◌++◌,
}
use homestar.Prelude.Classes.{Eq}
use homestar.Result.{Result, ok, err}
use homestar.Ipld.{Ipld}
use homestar.Foreign.{Foreign}
use homestar.Core.Task.{Workflow}
use homestar.Runtime.Receipt.{Failure}
use homestar.Runtime.Resources as Index
use homestar.Runtime.Resources.Table.{get-insert_self}
use homestar.Runtime.Store.{Db}
use homestar.Runtime.Graph.{DagNode, Vertex}
use homestar.Runtime.Handler.{Net, Event, CapsuleTag}
use homestar.Runtime.Worker.Start.{Worker}
use homestar.Runtime.Runner.{DelayQueue, Runner}
use homestar.Runtime.Runner.Launch.{
  data_of, WorkflowData, run, run_ack, run_err, AckWorkflow, ControlFlow, run_worker,
  provide_workflow, track, new_ack, find_receipt_info_by_pointers,
}
use homestar.Runtime.Runner.Serve.{
  Moment, launch, acknowledged, run_file, handle_command_message, reply,
}

module _ {C U Q K J T : Type 0} {net : Net} (eq : Eq C) where
  -- The workflow with CID `c` was provided to the network, and its worker runs as `handle`.
  abbrev pub IsLaunched : C → J → Runner C U Q K J T net → Runner C U Q K J T net → Type 0
  IsLaunched c handle s t =
      (t.sent ≡ s.sent ++ Event.provide_record c none CapsuleTag.workflow ∷ [])
      × (key : K) × (Index.get eq c t.running_workers ≡ some (handle, key))

module _ {C F P U V Q K J T : Type 0} {net : Net} (eq : Eq C)
    (conn : Result Failure (Worker C F P U V) → Result Failure (Db C F P U)) where
  -- The worker `w` was launched, and the database that it leaves could not be read.
  abbrev pub IsUnread :
      Worker C F P U V → Failure → J → Runner C U Q K J T net → Runner C U Q K J T net → Type 0
  IsUnread w failure handle s t =
      IsLaunched eq w.workflow_info.cid handle s t × (conn (ok w) ≡ err failure)

  abbrev Outcome :
      J
      → Runner C U Q K J T net
      → Result Failure (WorkflowData C U) × Runner C U Q K J T net
      → Type 0
  Outcome handle s (ok d, t) = IsLaunched eq d.info.cid handle s t
  Outcome handle s (err failure, t) =
      (t.running_workers ≡ s.running_workers)
      ⊎ ((w : Worker C F P U V) × IsUnread w failure handle s t)

  module _ (dq : DelayQueue C Q K) (e : Foreign C F P U) where
    read_after :
        (w : Worker C F P U V) (timeout : ℕ) (handle : J) (s : Runner C U Q K J T net)
        (read : Result Failure (Db C F P U))
        → conn (ok w) ≡ read
        → Outcome handle s (run_worker dq e eq true (ok w) timeout handle read s)
    unfolding run_worker provide_workflow track data_of find_receipt_info_by_pointers
    read_after w timeout handle s (ok db) c =
        (refl, _, get-insert_self eq w.workflow_info.cid _ s.running_workers)
    read_after w timeout handle s (err failure) c =
        let kept = get-insert_self eq w.workflow_info.cid _ s.running_workers in
        inr (w, ((refl, _, kept), c))

    run_worker-Outcome :
        (free : Bool) (made : Result Failure (Worker C F P U V)) (timeout : ℕ) (handle : J)
        (s : Runner C U Q K J T net)
        → Outcome handle s (run_worker dq e eq free made timeout handle (conn made) s)
    unfolding run_worker provide_workflow
    run_worker-Outcome free (err failure) timeout handle s = inl refl
    run_worker-Outcome false (ok w) timeout handle s = inl refl
    run_worker-Outcome true (ok w) timeout handle s =
        read_after w timeout handle s (conn (ok w)) refl

  module _ {W : Type 0} where
    abbrev pub IsAnswered :
        J
        → Runner C U Q K J T net
        → Result Failure (ControlFlow C U W) × Runner C U Q K J T net
        → Type 0
    IsAnswered handle s (result, t) =
        ((ack : AckWorkflow C U) × (reply result ≡ some (run_ack ack))
          × IsLaunched eq ack.cid handle s t)
        ⊎ ((failure : Failure) × (reply result ≡ some (run_err failure))
            × ((t.running_workers ≡ s.running_workers)
                ⊎ ((w : Worker C F P U V) × IsUnread w failure handle s t)))

    acknowledged-IsAnswered :
        (format : ℕ → String) (handle : J) (s : Runner C U Q K J T net)
        (p : Result Failure (WorkflowData C U) × Runner C U Q K J T net)
        → Outcome handle s p
        → IsAnswered handle s (acknowledged format p)
    unfolding acknowledged new_ack reply
    acknowledged-IsAnswered format handle s (ok d, t) launched =
        inl (new_ack format d, refl, launched)
    acknowledged-IsAnswered format handle s (err failure, t) outcome = inr (failure, refl, outcome)

module _ {C F P U T Q K J A W : Type 0} {net : Net} (dq : DelayQueue C Q K) (e : Foreign C F P U)
    (eq : Eq C) (into : T → Ipld C F) (from : Ipld C F → T)
    (build_schedule : List (DagNode (Vertex C F U T))
      → Option (List (List (DagNode (Vertex C F U T)))))
    (format : ℕ → String) where
  run_file-IsAnswered :
      (m : Moment C F P U T J) (parsed : Result Failure (Workflow C F U T × ℕ))
      (name : Option String) (db : Db C F P U) (s : Runner C U Q K J A net)
      → IsAnswered eq m.meanwhile {W = W} m.handle s
          (run_file dq e eq into from build_schedule format m parsed name db s)
  unfolding run_file launch reply
  run_file-IsAnswered m (err failure) name db s = inr (failure, refl, inl refl)
  run_file-IsAnswered m (ok (workflow, timeout)) name db s =
      acknowledged-IsAnswered eq m.meanwhile format m.handle s _
        (run_worker-Outcome eq m.meanwhile dq e m.free _ timeout m.handle s)

  -- Each command to run a workflow's file is answered by one message: an acknowledgement, and
  -- then the workflow was provided to the network and its worker is in the running set under
  -- the handle it was spawned with; or an error, and then the running set is as it was, or the
  -- database failed when the receipts were read, and the workflow was provided and its worker
  -- is in the running set nevertheless.
  pub run-IsAnswered :
      (read : W → Result Failure (Workflow C F U T × ℕ)) (sender : net.Sender)
      (m : Moment C F P U T J) (name : Option String) (file : W) (db : Db C F P U)
      (s : Runner C U Q K J A net)
      → IsAnswered eq m.meanwhile {W = W} m.handle s (
          handle_command_message dq e eq into from build_schedule read format sender m
            (run name file)
            db
            s)
  unfolding handle_command_message
  run-IsAnswered read sender m name file db s = run_file-IsAnswered m (read file) name db s
