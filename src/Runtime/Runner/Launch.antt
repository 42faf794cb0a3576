-- ===== src/Runtime/Runner/Launch.antt =====
-- `run_worker` and `shutdown` of homestar-runtime/src/runner.rs, and `AckWorkflow::new` of
-- runner/response.rs: a workflow's record is provided, its worker is spawned, and the client is
-- answered. The worker that is made is an argument, and so are the database when the receipts are
-- read, where `err` stands for a failure of the connection or of the query, and the text of a time. That a message reaches the event handler is not modelled to fail.
use homestar.Prelude.{ℕ, String, Bool, true, false, Option, none, some, List, [], ◌∷◌, ◌++◌, map}
use homestar.Prelude.Classes.{Eq}
use homestar.Result.{Result, ok, err, ◌>>=◌}
use homestar.Foreign.{Foreign}
use homestar.Core.Pointer.{Pointer}
use homestar.Core.Pointer as Pointer
use homestar.Runtime.Receipt.{Receipt, Failure, failed}
use homestar.Runtime.Resources as Index
use homestar.Runtime.Resources.{IndexedResources}
use homestar.Runtime.Info.{Info}
use homestar.Runtime.Store.{Db, find_receipt_pointers}
use homestar.Runtime.Handler.{Net, Event, CapsuleTag}
use homestar.Runtime.Worker.Start.{Worker}
use homestar.Runtime.Runner.{DelayQueue, Runner, abort_workers}

-- `WorkflowData`; the members of `receipt_info` are `WorkflowReceiptInfo`
pub record WorkflowData (C U : Type 0) : Type 0 where
  pub info : Info C U
  pub name : String
  pub timestamp : ℕ
  pub replayed_receipt_info : List (C × Option (String × Pointer C))

pub record AckWorkflow (C U : Type 0) : Type 0 where
  pub cid : C
  pub name : String
  pub num_tasks : ℕ
  pub progress_count : ℕ
  pub resources : IndexedResources C U
  pub replayed_receipt_info : List (C × Option (String × Pointer C))
  pub timestamp : String

-- `rpc::ServerMessage`, where `W` is a workflow's file
pub data ServerMessage (C U W : Type 0) : Type 0 where
  shutdown_cmd : ServerMessage C U W
  graceful_shutdown : ServerMessage C U W
  run : Option String → W → ServerMessage C U W
  run_ack : AckWorkflow C U → ServerMessage C U W
  run_err : Failure → ServerMessage C U W
  skip : ServerMessage C U W

-- `ControlFlow<(), rpc::ServerMessage>`
pub data ControlFlow (C U W : Type 0) : Type 0 where
  break_loop : ControlFlow C U W
  continue_with : ServerMessage C U W → ControlFlow C U W

module _ {C F P : Type 0} (eq : Eq C) where
  -- `into_iter().map(|receipt| (receipt.cid(), receipt)).collect()`
  unfoldable pub receipts_by_cid :
      List (Receipt C F P) → List (C × Receipt C F P) → List (C × Receipt C F P)
  receipts_by_cid [] receipts = receipts
  receipts_by_cid (r ∷ rs) receipts = receipts_by_cid rs (Index.insert eq r.cid.cid r receipts)

module _ {C F P U : Type 0} (e : Foreign C F P U) (eq : Eq C) where
  -- the info of the receipt that was found, if any
  abbrev pub info_of : C → Option (Receipt C F P) → C × Option (String × Pointer C)
  info_of c none = (c, none)
  info_of c (some r) = (c, some (e.cid_to_string r.ran.cid, r.instruction))

  unfoldable pub find_receipt_info_by_pointers :
      List (Pointer C)
      → Result Failure (Db C F P U)
      → Result Failure (List (C × Option (String × Pointer C)))
  unfolding receipts_by_cid
  find_receipt_info_by_pointers pointers conn = do
    db ← conn
    let receipts = receipts_by_cid eq (find_receipt_pointers eq pointers db) []
    ok (map (λ p. info_of p.cid (Index.get eq p.cid receipts)) pointers)

-- `AckWorkflow::new`, where `format` gives a time's text
unfoldable pub new_ack : {C U : Type 0} → (ℕ → String) → WorkflowData C U → AckWorkflow C U
new_ack format d = record {
  cid = d.info.cid;
  name = d.name;
  num_tasks = d.info.num_tasks;
  progress_count = d.info.progress_count;
  resources = d.info.resources;
  replayed_receipt_info = d.replayed_receipt_info;
  timestamp = format d.timestamp;
}

module _ {C F P U A : Type 0} (e : Foreign C F P U) (eq : Eq C) where
  unfoldable pub data_of :
      Worker C F P U A → Result Failure (Db C F P U) → Result Failure (WorkflowData C U)
  unfolding find_receipt_info_by_pointers
  data_of w conn = do
    replayed_receipt_info ←
        find_receipt_info_by_pointers e eq (map Pointer.new w.workflow_info.progress) conn
    ok (record {
      info = w.workflow_info;
      name = w.workflow_name;
      timestamp = w.workflow_started;
      replayed_receipt_info = replayed_receipt_info;
    })

module _ {C U Q K J T : Type 0} {net : Net} where
  -- `event_sender.send_async(Event::ProvideRecord(..))`
  unfoldable pub provide_workflow :
      {F P A : Type 0} → Worker C F P U A → Runner C U Q K J T net → Runner C U Q K J T net
  provide_workflow w s = record s {
    sent = s.sent ++ Event.provide_record w.workflow_info.cid none CapsuleTag.workflow ∷ [];
  }

module _ {C U Q K J T : Type 0} {net : Net} (dq : DelayQueue C Q K) (eq : Eq C) where
  -- the expiration of the workflow, and the worker's handle
  unfoldable pub track : C → J → ℕ → Runner C U Q K J T net → Runner C U Q K J T net
  track cid handle timeout s =
      let (delay_key, queue) = dq.insert cid timeout s.expiration_queue in
      record s {
        expiration_queue = queue;
        running_workers = Index.insert eq cid (handle, delay_key) s.running_workers;
      }

module _ {C F P U Q K J T A : Type 0} {net : Net} (dq : DelayQueue C Q K) (e : Foreign C F P U)
    (eq : Eq C) where
  -- `run_worker`, from the worker that was made: it is spawned as `handle`, and `conn` is the
  -- database when the receipts are read. Where that fails, the worker is in the running set already.
  unfoldable pub run_worker :
      Bool
      → Result Failure (Worker C F P U A)
      → ℕ
      → J
      → Result Failure (Db C F P U)
      → Runner C U Q K J T net
      → Result Failure (WorkflowData C U) × Runner C U Q K J T net
  unfolding provide_workflow track data_of
  run_worker free (err failure) timeout handle conn s = (err failure, s)
  run_worker false (ok w) timeout handle conn s = (err failed, provide_workflow w s)
  run_worker true (ok w) timeout handle conn s =
      (data_of e eq w conn, track dq eq w.workflow_info.cid handle timeout (provide_workflow w s))

-- `shutdown`, as far as it changes the runner: the event handler is told, and the workers abort.
unfoldable pub shut_down :
    {C U Q K J T : Type 0} {net : Net}
    → net.Sender
    → Runner C U Q K J T net
    → Runner C U Q K J T net
unfolding abort_workers
shut_down sender s = abort_workers (record s { sent = s.sent ++ Event.shutdown sender ∷ [] })
