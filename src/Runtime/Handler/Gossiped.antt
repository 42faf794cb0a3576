-- ===== src/Runtime/Handler/Gossiped.antt =====
-- A receipt that one node gossips, and that another node stores.
use mathlib.Core.Path.{subst}
use homestar.Prelude.{
  ◌≡◌, refl, sym, ap, ◌∙◌, List, [], ◌∷◌, ◌++◌, ◌<◌, some, length, true, false, inl, inr, Bool,
  Bool-cases, if_of_true, ℕ, arith,
}
use homestar.Prelude.Classes.{Eq}
use homestar.Prelude.Table.{exists, first}
use homestar.Result.{Result, ok, err}
use homestar.Foreign.{Foreign, IsForeign}
use homestar.Core.Receipt.Laws.{reread}
use homestar.Runtime.Receipt.{Receipt, Failure, receipt_to_ipld, receipt_of_ipld}
use homestar.Runtime.Receipt.Laws.{stored_receipt_of_ipld-to_ipld}
use homestar.Runtime.Resources.Table.{beq_self}
use homestar.Runtime.Pubsub as Pubsub
use homestar.Runtime.Pubsub.{receipts_topic, message_to_bytes}
use homestar.Runtime.Pubsub.Laws.{message_of_bytes-to_bytes}
use homestar.Runtime.Store.{is_receipt, store_receipt, find_receipt_by_cid}
use homestar.Runtime.Handler.{
  Net, Call, Swarm, Wire, IsWire, EventHandler, Event, Captured, publish,
}
use homestar.Runtime.Handler.Made.{
  Among, Among-append_left, Among-snoc, put-calls, put_workflow-kept,
}
use homestar.Runtime.Handler.Publish.{
  PubSubError, put_both, publish_found, publish_bytes, gossip_publish, gossip,
}
use homestar.Runtime.Handler.Events.{handle_event}
use homestar.Runtime.Handler.Requests.{message_received, store_gossiped}
use homestar.Runtime.Handler.Found.{handle_event-captured}

-- what a query finds in the last row, if in no other
first-snoc :
    {A : Type 0} (p : A → Bool) (xs : List A) (x : A)
    → exists p xs ≡ false
    → p x ≡ true
    → first p (xs ++ x ∷ []) ≡ some x
unfolding first exists
first-snoc p [] x h k = rw k refl
first-snoc p (y ∷ ys) x h k = ground (arith, first-snoc p ys x)

module _ {C F P U : Type 0} {net : Net} (e : Foreign C F P U) (wire : Wire C F net)
    (swarm : Swarm net) where
  -- What was called before the records are put, has been called after.
  put_both-kept :
      (c : Call net) (captured : Captured C U) (r : Receipt C F P)
      (capsule : Result Failure (List ℕ)) (h : EventHandler C F P U net)
      → Among c h.calls
      → Among c (put_both e wire swarm r captured.workflow capsule h).calls
  unfolding put_both
  put_both-kept c captured r (err _) h m = m
  put_both-kept c captured r (ok b) h m = put_workflow-kept e wire swarm c _ _ _ (
      rw (put-calls swarm (wire.cid_to_bytes r.instruction.cid) b _ _ h)
        (Among-append_left c h.calls _ m))

  module _ (r : Receipt C F P) (bytes : List ℕ) (h : EventHandler C F P U net) where
    publish_bytes-calls :
        swarm.mesh_peers h.calls receipts_topic ≡ true
        → (publish_bytes e wire swarm receipts_topic h (ok bytes)).1.calls
          ≡ h.calls ++ publish receipts_topic bytes ∷ []
    unfolding publish_bytes
    publish_bytes-calls mesh =
        elim (Bool-cases (swarm.accepted (h.calls ++ publish receipts_topic bytes ∷ []))) [
          | inl y ↦ rw (mesh, y) refl
          | inr y ↦ rw (mesh, y) refl
        ]

    gossip-calls :
        h.pubsub_enabled ≡ true
        → swarm.gossipsub ≡ true
        → swarm.mesh_peers h.calls receipts_topic ≡ true
        → message_to_bytes e (receipt_to_ipld e) (Pubsub.new (wire.xid h.calls) r) ≡ ok bytes
        → (gossip e wire swarm r h).calls ≡ h.calls ++ publish receipts_topic bytes ∷ []
    unfolding gossip gossip_publish
    gossip-calls enabled on mesh encoded =
        ap {A = EventHandler C F P U net} (λ x. x.calls) (if_of_true h.pubsub_enabled _ _ enabled)
        ∙ ap {A = Result PubSubError (Unit {0}) × EventHandler C F P U net} (λ x. x.1.calls)
            (if_of_true swarm.gossipsub _ _ on)
        ∙ ap (λ m. (publish_bytes e wire swarm receipts_topic h m).1.calls) encoded
        ∙ publish_bytes-calls mesh

    publish_found-publishes :
        (captured : Captured C U) (peers : List (net.Peer × net.Endpoint))
        → h.connections.peers ≡ peers
        → 0 < length peers
        → (gossip e wire swarm r h).calls ≡ h.calls ++ publish receipts_topic bytes ∷ []
        → Among (publish receipts_topic bytes) (publish_found e wire swarm captured r h).calls
    unfolding publish_found
    publish_found-publishes captured [] k p g = absurd (omega arith)
    publish_found-publishes captured (q ∷ qs) k p g =
        rw (k, publish_found)
          (put_both-kept _ captured r _ _
            (subst (Among (publish receipts_topic bytes)) (sym g) (Among-snoc _ h.calls)))

module _ {C F P U : Type 0} {net : Net} (e : Foreign C F P U) (eq : Eq C) (law : IsForeign e)
    (wire : Wire C F net) (wire_law : IsWire e wire) (swarm : Swarm net) (r : Receipt C F P)
    (bytes : List ℕ) where
  message_received-stores :
      (h : EventHandler C F P U net) (xid : List ℕ)
      → length xid ≡ 12
      → reread e r.issuer ≡ r.issuer
      → message_to_bytes e (receipt_to_ipld e) (Pubsub.new xid r) ≡ ok bytes
      → wire.conn h.calls ≡ true
      → exists (is_receipt eq r.cid.cid) h.db.receipts ≡ false
      → find_receipt_by_cid eq r.cid.cid (message_received e eq wire bytes h).db ≡ ok r
  unfolding message_received store_gossiped store_receipt find_receipt_by_cid Pubsub.new
  message_received-stores h xid size issuer encoded conn fresh =
      rw
        (
          message_received,
          message_of_bytes-to_bytes e law (receipt_to_ipld e) (receipt_of_ipld e) wire.decode
              wire_law.decodes (Pubsub.new xid r) r bytes size
              (stored_receipt_of_ipld-to_ipld e law r
                ∙ ap (λ i. ok (record r { issuer = i })) issuer)
              encoded,
          store_gossiped,
          conn,
          fresh,
          first-snoc (is_receipt eq r.cid.cid) h.db.receipts r fresh (beq_self eq r.cid.cid),
        )
        refl

  -- Where the crates behave as they document, the node has a connection to its database, some
  -- peer is connected, gossip is enabled and on, the topic has peers in the mesh, the random
  -- number has its 12 bytes, the message encodes to `bytes`, and the receipt's issuer reads
  -- back as itself: a stored receipt that is captured is published in these bytes. A node that
  -- receives them, has a connection to its database and no receipt with this CID, has stored
  -- the receipt afterwards, and finds it by its CID.
  pub captured-gossiped :
      (captured : Captured C U) (h : EventHandler C F P U net)
      → wire.conn h.calls ≡ true
      → find_receipt_by_cid eq captured.receipt h.db ≡ ok r
      → 0 < length h.connections.peers
      → h.pubsub_enabled ≡ true
      → swarm.gossipsub ≡ true
      → swarm.mesh_peers h.calls receipts_topic ≡ true
      → length (wire.xid h.calls) ≡ 12
      → message_to_bytes e (receipt_to_ipld e) (Pubsub.new (wire.xid h.calls) r) ≡ ok bytes
      → reread e r.issuer ≡ r.issuer
      → (h' : EventHandler C F P U net) → wire.conn h'.calls ≡ true
      → exists (is_receipt eq r.cid.cid) h'.db.receipts ≡ false
      → Among
          (publish receipts_topic bytes)
          (handle_event e wire swarm eq (Event.captured_receipt captured) h).calls
        × (find_receipt_by_cid eq r.cid.cid (message_received e eq wire bytes h').db ≡ ok r)
  captured-gossiped captured h conn stored peers enabled on mesh size encoded issuer h' conn'
        fresh =
      (
        subst (λ x. Among (publish receipts_topic bytes) x.calls)
            (sym
              (handle_event-captured e eq law wire wire_law swarm captured r bytes h conn stored))
            (publish_found-publishes e wire swarm r bytes h captured h.connections.peers refl peers
              (gossip-calls e wire swarm r bytes h enabled on mesh encoded)),
        message_received-stores h' (wire.xid h.calls) size issuer encoded conn' fresh,
      )
