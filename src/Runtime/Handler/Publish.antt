-- ===== src/Runtime/Handler/Publish.antt =====
-- `gossip_publish` of homestar-runtime/src/network/swarm.rs and `Captured` of
-- homestar-runtime/src/event_handler/event.rs: a receipt of this node is gossiped, and stored on the
-- DHT together with its workflow's information. Logs are left out.
use homestar.Prelude.{ℕ, String, none, some, List, [], ◌∷◌, ltb, if◌then◌else◌}
use homestar.Prelude.Classes.{Eq}
use homestar.Result.{Result, ok, err, ok_or, ◌>>=◌}
use homestar.Foreign.{Foreign}
use homestar.Core.Receipt as Invocation
use homestar.Runtime.Receipt.{
  Receipt, Failure, failed, to_invocation, invocation_capsule, receipt_to_ipld,
}
use homestar.Runtime.Pubsub as Pubsub
use homestar.Runtime.Pubsub.{receipts_topic, message_to_bytes}
use homestar.Runtime.Info.{Info, increment_progress}
use homestar.Runtime.Info.Translate.{info_capsule}
use homestar.Runtime.Store.{find_receipt_by_cid}
use homestar.Runtime.Handler.{
  Net, Swarm, Wire, EventHandler, Captured, Quorum, one, n, RequestResponseKey, CapsuleTag, publish,
  put_record,
}
use homestar.Runtime.Handler.Calls.{call, await_query}

-- `PubSubError`, as far as publishing returns it
pub data PubSubError : Type 0 where
  insufficient_peers : String → PubSubError
  not_enabled : PubSubError
  not_published : PubSubError
  conversion : Failure → PubSubError

-- `if event_handler.receipt_quorum > 0`, and the same for the workflow
unfoldable pub receipt_quorum_of :
    {C F P U : Type 0} {net : Net} → EventHandler C F P U net → Quorum
receipt_quorum_of h = if ltb 0 h.receipt_quorum then n h.receipt_quorum else one

unfoldable pub workflow_quorum_of :
    {C F P U : Type 0} {net : Net} → EventHandler C F P U net → Quorum
workflow_quorum_of h = if ltb 0 h.workflow_quorum then n h.receipt_quorum else one

-- `Receipt::invocation_capsule` with its encoding
unfoldable pub capsule_bytes :
    {C F P U : Type 0} → Foreign C F P U → Invocation.Receipt C F P → Result Failure (List ℕ)
capsule_bytes e r = do x ← invocation_capsule e r; ok_or (e.encode x) failed

module _ {C F P U : Type 0} {net : Net} (swarm : Swarm net) where
  -- `put_record(..).map_or_else(..)`: the query is entered if the record was accepted
  unfoldable pub put :
      List ℕ
      → List ℕ
      → Quorum
      → RequestResponseKey
      → EventHandler C F P U net
      → EventHandler C F P U net
  put key value quorum query_key h =
      let h' = call (put_record key value quorum) h in
      if swarm.accepted h'.calls then await_query swarm query_key none h' else h'

module _ {C F P U : Type 0} {net : Net} (e : Foreign C F P U) (wire : Wire C F net)
    (swarm : Swarm net) where
  -- the call of `gossipsub.publish`, whose error ends `gossip_publish`
  unfoldable pub publish_bytes :
      String
      → EventHandler C F P U net
      → Result Failure (List ℕ)
      → Result PubSubError (Unit {0}) × EventHandler C F P U net
  publish_bytes topic h (err failure) = (err (conversion failure), h)
  publish_bytes topic h (ok msg_bytes) =
      if swarm.mesh_peers h.calls topic
      then (let h' = call (publish topic msg_bytes) h in
          if swarm.accepted h'.calls then (ok tt, h') else (err not_published, h'))
      else (err (insufficient_peers topic), h)

  -- `gossip_publish`
  unfoldable pub gossip_publish :
      String
      → Pubsub.Message (Receipt C F P)
      → EventHandler C F P U net
      → Result PubSubError (Unit {0}) × EventHandler C F P U net
  unfolding publish_bytes
  gossip_publish topic message h =
      if swarm.gossipsub
      then publish_bytes topic h (message_to_bytes e (receipt_to_ipld e) message)
      else (err not_enabled, h)

  -- `if let Ok(workflow_bytes) = self.workflow.capsule()`
  unfoldable pub put_workflow :
      Info C U → Quorum → EventHandler C F P U net → EventHandler C F P U net
  unfolding put
  put_workflow i quorum h = elim (e.encode (info_capsule e i)) [
    | none ↦ h
    | some workflow_bytes ↦
        put swarm (wire.cid_to_bytes i.cid) workflow_bytes quorum
          (record { cid = e.cid_to_string i.cid; capsule_tag = CapsuleTag.workflow }) h
  ]

  -- `if event_handler.pubsub_enabled`, whose result is only logged
  unfoldable pub gossip : Receipt C F P → EventHandler C F P U net → EventHandler C F P U net
  unfolding gossip_publish
  gossip r h =
      if h.pubsub_enabled
      then (gossip_publish receipts_topic (Pubsub.new (wire.xid h.calls) r) h).1
      else h

  -- `if let Ok(receipt_bytes) = Receipt::invocation_capsule(..)`
  unfoldable pub put_both :
      Receipt C F P
      → Info C U
      → Result Failure (List ℕ)
      → EventHandler C F P U net
      → EventHandler C F P U net
  unfolding put put_workflow receipt_quorum_of workflow_quorum_of
  put_both r i (err failure) h = h
  put_both r i (ok receipt_bytes) h =
      put_workflow (increment_progress i r.cid.cid) (workflow_quorum_of h) (
        put swarm (wire.cid_to_bytes r.instruction.cid) receipt_bytes (receipt_quorum_of h)
          (record { cid = e.cid_to_string r.cid.cid; capsule_tag = CapsuleTag.receipt }) h)

  -- the part of `publish_and_notify` after the receipt is found
  unfoldable pub publish_found :
      Captured C U → Receipt C F P → EventHandler C F P U net → EventHandler C F P U net
  unfolding gossip put_both
  publish_found captured r h = elim h.connections.peers [
    | [] ↦ h
    | p ∷ ps ↦
        let h' = gossip r h in put_both r captured.workflow (capsule_bytes e (to_invocation r)) h'
  ]

  -- `Captured::publish_and_notify`
  unfoldable pub publish_and_notify :
      Eq C
      → Captured C U
      → EventHandler C F P U net
      → Result Failure (C × Invocation.Receipt C F P) × EventHandler C F P U net
  unfolding publish_found
  publish_and_notify eq captured h =
      if wire.conn h.calls
      then elim (find_receipt_by_cid eq captured.receipt h.db) [
        | err _ ↦ (err failed, h)
        | ok r ↦ (ok (captured.receipt, to_invocation r), publish_found captured r h)
      ]
      else (err failed, h)
