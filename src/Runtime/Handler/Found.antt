-- ===== src/Runtime/Handler/Found.antt =====
-- A receipt that one node captures, and that another node finds on the DHT.
use mathlib.Core.Path.{subst}
use homestar.Prelude.{
  ◌≡◌, refl, sym, ap, ◌∙◌, List, [], ◌∷◌, ◌++◌, ◌<◌, Option, some, length, true, ℕ, arith,
}
use homestar.Prelude.Classes.{Eq}
use homestar.Result.{Result, ok, >>=-eq-ok, ok_or-eq-ok, ok-injective}
use homestar.Ipld.{map, field, end}
use homestar.Foreign.{Foreign, IsForeign}
use homestar.Core.Receipt.Laws.{reread}
use homestar.Runtime.Receipt.{
  Receipt, Failure, failed, try_with, to_invocation, invocation_capsule, receipt_tag,
}
use homestar.Runtime.Receipt.Laws.{invocation_capsule_lem}
use homestar.Runtime.Record as Record
use homestar.Runtime.Record.{decode_capsule}
use homestar.Runtime.Record.Shared.{decode_capsule-invocation_capsule}
use homestar.Runtime.Store.{find_receipt_by_cid}
use homestar.Runtime.Resources as Index
use homestar.Runtime.Handler.{
  Net, Call, Swarm, Wire, IsWire, EventHandler, Event, Captured, FoundEvent, found, respond,
  RequestResponseKey,
}
use homestar.Runtime.Handler.Made.{Among, Among-snoc, put-calls, put_workflow-kept, gossip-only}
use homestar.Runtime.Handler.Publish.{
  put_both, publish_found, publish_and_notify, capsule_bytes, receipt_quorum_of,
}
use homestar.Runtime.Handler.Events.{handle_event, handle_info}
use homestar.Runtime.Handler.Kademlia.{
  found_record, query_progressed, answer_query, found_record_of,
}

module _ {C F P U : Type 0} {net : Net} (e : Foreign C F P U) (eq : Eq C) (law : IsForeign e)
    (wire : Wire C F net) (wire_law : IsWire e wire) where
  -- The stored receipt is what is made of the invocation's receipt that it holds, and its issuer is
  -- read back from its text.
  pub record IsShared (r : Receipt C F P) : Type 0 where
    pub made : try_with e r.instruction (to_invocation r) ≡ ok r
    pub issuer : reread e r.issuer ≡ r.issuer

  -- The bytes of a receipt's capsule, under the key of its instruction, are found as the receipt.
  pub found_record_of-capsule_bytes :
      (r : Receipt C F P) (bytes : List ℕ) (publisher : Option net.Peer)
      → IsShared r
      → capsule_bytes e (to_invocation r) ≡ ok bytes
      → found_record_of e eq wire (wire.cid_to_bytes r.instruction.cid) publisher bytes
        ≡ ok (Record.receipt publisher r)
  unfolding capsule_bytes found_record_of to_invocation
  found_record_of-capsule_bytes r bytes publisher s h =
      let (capsule, ec, hb) = >>=-eq-ok (invocation_capsule e (to_invocation r)) _ h in
      let encoded : e.encode capsule ≡ some bytes = ok_or-eq-ok (e.encode capsule) failed hb in
      let (m, em, _, _) = invocation_capsule_lem e law (to_invocation r) in
      let same : capsule ≡ map (field receipt_tag (map m) end) = ok-injective (sym ec ∙ em) in
      rw (wire_law.cid_bytes r.instruction.cid) (
        decode_capsule-invocation_capsule e eq law wire.decode_error wire.decode r.instruction
          (to_invocation r) r capsule bytes publisher s.made s.issuer ec
          (wire_law.no_error _ bytes (ap e.encode (sym same) ∙ encoded))
          (wire_law.decodes capsule bytes encoded))

  module _ (swarm : Swarm net) (captured : Captured C U) (r : Receipt C F P) (bytes : List ℕ)
      (h : EventHandler C F P U net) where
    -- `put_record` of the receipt, as the quorum is set
    abbrev pub put_receipt : Call net
    put_receipt = Call.put_record (wire.cid_to_bytes r.instruction.cid) bytes (receipt_quorum_of h)

    put_both-put :
        (capsule : Result Failure (List ℕ))
        → capsule ≡ ok bytes
        → (cs : List (Call net))
        → Among put_receipt
            (put_both e wire swarm r captured.workflow capsule (record h { calls = cs })).calls
    unfolding put_both receipt_quorum_of
    put_both-put capsule z cs =
        rw (z, put_both)
          (put_workflow-kept e wire swarm put_receipt _ _ _ (
            rw (put-calls swarm _ bytes (receipt_quorum_of h) _ (record h { calls = cs }))
              (Among-snoc put_receipt cs)))

    publish_found-put :
        capsule_bytes e (to_invocation r) ≡ ok bytes
        → (peers : List (net.Peer × net.Endpoint)) → h.connections.peers ≡ peers
        → 0 < length peers
        → Among put_receipt (publish_found e wire swarm captured r h).calls
    unfolding publish_found
    publish_found-put z [] k p = absurd (omega arith)
    publish_found-put z (q ∷ qs) k p =
        let (cs, only) = gossip-only e wire swarm r h in
        rw (k, publish_found, only) (put_both-put _ z cs)

    pub handle_event-captured :
        wire.conn h.calls ≡ true
        → find_receipt_by_cid eq captured.receipt h.db ≡ ok r
        → handle_event e wire swarm eq (Event.captured_receipt captured) h
          ≡ publish_found e wire swarm captured r h
    unfolding handle_event handle_info publish_and_notify
    handle_event-captured conn stored =
        rw (handle_event, handle_info, publish_and_notify, conn, stored) refl

    -- Where a database connection is at hand, a peer is connected and the receipt that was
    -- captured is stored, shared content that is encoded in these bytes, the handler asks the
    -- DHT to keep the bytes under the CID of the receipt's instruction, at the receipt quorum.
    -- Another node that finds such a record answers the sender that waits for the query with
    -- the very receipt.
    pub captured-found :
        wire.conn h.calls ≡ true
        → find_receipt_by_cid eq captured.receipt h.db ≡ ok r
        → 0 < length h.connections.peers
        → IsShared r
        → capsule_bytes e (to_invocation r) ≡ ok bytes
        → (h' : EventHandler C F P U net) (id : net.Query) (key : RequestResponseKey)
          (sender : net.Sender) (publisher : Option net.Peer)
        → Index.get net.eq_query id h'.query_senders ≡ some (key, some sender)
        → Among put_receipt (handle_event e wire swarm eq (Event.captured_receipt captured) h).calls
          × ((query_progressed e eq wire swarm id
                (found_record (wire.cid_to_bytes r.instruction.cid) publisher bytes)
                h').sent
              ≡ h'.sent ++ respond sender (found (ok (FoundEvent.receipt publisher r))) ∷ [])
    unfolding query_progressed answer_query
    captured-found conn stored peers shared encoded h' id key sender publisher waits = (
      subst (λ x. Among put_receipt x.calls) (sym (handle_event-captured conn stored))
          (publish_found-put encoded h.connections.peers refl peers),
      rw (waits, answer_query, found_record_of-capsule_bytes r bytes publisher shared encoded) refl,
    )
