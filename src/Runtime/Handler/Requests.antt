-- ===== src/Runtime/Handler/Requests.antt =====
-- The requests and responses between peers, and the gossiped messages, in
-- homestar-runtime/src/event_handler/swarm_event.rs. What `Info::retrieve` waits for, a provider's
-- answer, is an argument.
use text.Mathlib.Text.{◌==◌}
use homestar.Prelude.{ℕ, Option, none, some, List, [], if◌then◌else◌}
use homestar.Prelude.Classes.{Eq}
use homestar.Result.{Result, ok, err}
use homestar.Foreign.{Foreign}
use homestar.Runtime.Receipt.{Receipt, Failure, failed, receipt_of_ipld}
use homestar.Runtime.Info.{Info}
use homestar.Runtime.Info.Translate.{info_capsule, workflow_tag}
use homestar.Runtime.Retrieve.{retrieve}
use homestar.Runtime.Store.{Db, get_workflow_info, store_receipt}
use homestar.Runtime.Record as Record
use homestar.Runtime.Record.{DecodedRecord, decode_capsule}
use homestar.Runtime.Pubsub as Pubsub
use homestar.Runtime.Pubsub.{message_of_bytes}
use homestar.Runtime.Resources as Index
use homestar.Runtime.Handler.{
  Net, Wire, EventHandler, Event, FoundEvent, ResponseEvent, found, CapsuleTag, tag,
  RequestResponseKey, RequestResponseError, timeout, invalid_capsule, unsupported, event, respond,
  send_response,
}
use homestar.Runtime.Handler.Calls.{call, send, remove}

-- `.encode().unwrap_or_default()`
abbrev pub bytes_or_default : Option (List ℕ) → List ℕ
bytes_or_default none = []
bytes_or_default (some bytes) = bytes

-- the answer to a response that was decoded
unfoldable pub response_of :
    {C F P U : Type 0} {net : Net}
    → Result Failure (DecodedRecord C F P U net.Peer)
    → ResponseEvent C F P U net
response_of (ok (Record.workflow peer i)) = found (ok (FoundEvent.workflow peer i))
response_of (ok (Record.receipt peer r)) = found (err failed)
response_of (err failure) = found (err failure)

module _ {C F P U : Type 0} {net : Net} (e : Foreign C F P U) (eq : Eq C)
    (wire : Wire C F net) where
  abbrev pub refuse :
      net.Channel → RequestResponseError → EventHandler C F P U net → EventHandler C F P U net
  refuse channel failure h =
      call (send_response channel (bytes_or_default (wire.encode_error failure))) h

  -- `match workflow::Info::retrieve(..)`
  unfoldable pub send_info :
      net.Channel
      → RequestResponseKey
      → Result Failure (Info C U)
      → EventHandler C F P U net
      → EventHandler C F P U net
  send_info channel request (ok workflow_info) h = elim (e.encode (info_capsule e workflow_info)) [
    | some bytes ↦ call (send_response channel bytes) h
    | none ↦ refuse channel (invalid_capsule request) h
  ]
  send_info channel request (err _) h = refuse channel (timeout request) h

  -- the database that `event_handler.db.conn().ok()` gives
  abbrev pub connected : EventHandler C F P U net → Option (Db C F P U)
  connected h = if wire.conn h.calls then some h.db else none

  -- the event that `Info::retrieve` sends for the provider, if the database has no information
  abbrev pub ask_provider :
      C → net.Sender → Option (Db C F P U) → EventHandler C F P U net → EventHandler C F P U net
  ask_provider cid tx conn h =
      let asked =
        send
          (event (
            Event.get_providers
              (record { cid = cid; capsule = CapsuleTag.workflow; sender = some tx })))
          h in
      elim conn [
        | none ↦ asked
        | some db ↦ elim (get_workflow_info eq cid db) [ ok _ ↦ h | err _ ↦ asked ]
      ]

  -- `match (Cid::try_from(request.cid), request.capsule_tag.tag())`
  unfoldable pub request_received :
      net.Sender
      → Option (Info C U)
      → net.Channel
      → RequestResponseKey
      → EventHandler C F P U net
      → EventHandler C F P U net
  unfolding send_info
  request_received tx provided channel request h = elim (e.cid_from_str request.cid) [
    | none ↦ refuse channel (unsupported request) h
    | some cid ↦
        if tag request.capsule_tag == workflow_tag
        then send_info channel request (retrieve eq cid (connected h) provided)
            (ask_provider cid tx (connected h) h)
        else refuse channel (unsupported request) h
  ]

  -- `if let Ok(cid) = Cid::try_from(key_cid)`, and the answer to the sender
  unfoldable pub respond_to :
      RequestResponseKey × net.Sender
      → net.Peer
      → List ℕ
      → EventHandler C F P U net
      → EventHandler C F P U net
  unfolding response_of
  respond_to (key, sender) peer response h = elim (e.cid_from_str key.cid) [
    | none ↦ h
    | some cid ↦
        send
          (respond sender (
            response_of
              (decode_capsule e eq wire.decode_error wire.decode cid (some peer) response)))
          h
  ]

  -- the arm of `Message::Response`
  unfoldable pub response_received :
      net.Request → net.Peer → List ℕ → EventHandler C F P U net → EventHandler C F P U net
  unfolding respond_to
  response_received id peer response h =
      let removed = record h {
        request_response_senders = remove net.eq_request id h.request_response_senders;
      } in
      elim (Index.get net.eq_request id h.request_response_senders) [
        | none ↦ h
        | some entry ↦ respond_to entry peer response removed
      ]

  -- the receipt of a gossiped message is stored
  unfoldable pub store_gossiped :
      Result Failure (Pubsub.Message (Receipt C F P))
      → EventHandler C F P U net
      → EventHandler C F P U net
  store_gossiped (err _) h = h
  store_gossiped (ok msg) h =
      if wire.conn h.calls then record h { db = (store_receipt eq msg.payload h.db).1 } else h

  -- the arm of `gossipsub::Event::Message`
  unfoldable pub message_received : List ℕ → EventHandler C F P U net → EventHandler C F P U net
  unfolding store_gossiped
  message_received bytes h =
      store_gossiped (message_of_bytes e wire.decode (receipt_of_ipld e) bytes) h
