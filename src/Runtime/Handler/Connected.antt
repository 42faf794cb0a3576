-- ===== src/Runtime/Handler/Connected.antt =====
-- Which peers the table of connections holds, over a run of the handler's loop.
use homestar.Prelude.{◌≡◌, refl, ap, ◌∙◌, List, [], ◌∷◌, String, Bool, not, ◌&&◌, ◌||◌, arith}
use homestar.Prelude.Classes.{Eq}
use homestar.Prelude.Table.{exists}
use homestar.Foreign.{Foreign}
use homestar.Runtime.Resources as Index
use homestar.Runtime.Handler.{Net, Swarm, Wire, EventHandler, Connections, remove_peer}
use homestar.Runtime.Handler.Calls.{call, remove}
use homestar.Runtime.Handler.Dials.{discovered-Dialed}
use homestar.Runtime.Handler.Kept.{Same-if, handle_event-Same, evicted-Same}
use homestar.Runtime.Handler.Undisturbed.{
  identify_received-Same, expired-Same, mdns_discovered-Same, mdns_expired-Same,
  query_progressed-Same, request_received-Same, response_received-Same, message_received-Same,
}
use homestar.Runtime.Handler.Peers.{
  contains_key, connection_established, connection_closed, registered, none_is,
}
use homestar.Runtime.Handler.Swarming.{
  SwarmEvent, Incoming, runtime_event, swarm_event, eviction, handle_swarm_event, round, start,
}

module _ {K V : Type 0} (eq : Eq K) where
  contains_key-insert :
      (k j : K) (v : V) (m : List (K × V))
      → contains_key eq k (Index.insert eq j v m) ≡ (eq.beq k j || contains_key eq k m)
  unfolding Index.insert exists
  contains_key-insert k j v [] = refl
  contains_key-insert k j v ((i, w) ∷ m) =
      ground (arith, contains_key-insert k j v m, eq.beq_iff j i)

  contains_key-remove :
      (k j : K) (m : List (K × V))
      → contains_key eq k (remove eq j m) ≡ (not (eq.beq k j) && contains_key eq k m)
  unfolding remove exists
  contains_key-remove k j [] = ground arith
  contains_key-remove k j ((i, w) ∷ m) =
      ground (arith, contains_key-remove k j m, eq.beq_iff j i, eq.beq_iff k j, eq.beq_iff k i)

module _ {C U : Type 0} {net : Net} (p : net.Peer) where
  -- whether the peer is connected after an event of the swarm, if it was before
  abbrev pub linked : SwarmEvent C U net → Bool → Bool
  linked (SwarmEvent.connection_established q _) before = net.eq_peer.beq p q || before
  linked (SwarmEvent.connection_closed q) before = not (net.eq_peer.beq p q) && before
  linked _ before = before

  -- and after a run of the loop: the last of its connections' events that concerns it decides
  abbrev pub linked_after : List (Incoming C U net) → Bool → Bool
  linked_after [] before = before
  linked_after (swarm_event ev ∷ is) before = linked_after is (linked ev before)
  linked_after (runtime_event _ ∷ is) before = linked_after is before
  linked_after (eviction _ _ ∷ is) before = linked_after is before

module _ {C F P U : Type 0} {net : Net} (e : Foreign C F P U) (eq : Eq C) (wire : Wire C F net)
    (swarm : Swarm net) (protocol_ver kad_protocol : String) (p : net.Peer) where
  -- whether the peer is in the table
  abbrev pub holds : EventHandler C F P U net → Bool
  holds h = contains_key net.eq_peer p h.connections.peers

  holds_of :
      {c c' : Connections net}
      → c' ≡ c
      → contains_key net.eq_peer p c'.peers ≡ contains_key net.eq_peer p c.peers
  holds_of k = ap {A = Connections net} (λ c. contains_key net.eq_peer p c.peers) k

  handle_swarm_event-linked :
      (ev : SwarmEvent C U net) (h : EventHandler C F P U net)
      → holds (handle_swarm_event e eq wire swarm protocol_ver kad_protocol ev h)
        ≡ linked p ev (holds h)
  unfolding handle_swarm_event connection_established connection_closed registered
  handle_swarm_event-linked (SwarmEvent.identify_received q info) h =
      holds_of (identify_received-Same swarm protocol_ver kad_protocol q info h)
  handle_swarm_event-linked (SwarmEvent.discovered node rs cookie) h =
      holds_of (discovered-Dialed swarm node rs cookie h).same
  handle_swarm_event-linked (SwarmEvent.registered node) h = refl
  handle_swarm_event-linked (SwarmEvent.expired q) h = holds_of (expired-Same swarm q h)
  handle_swarm_event-linked (SwarmEvent.message bytes) h =
      holds_of (message_received-Same e eq wire bytes h)
  handle_swarm_event-linked (SwarmEvent.progressed id r) h =
      holds_of (query_progressed-Same e eq wire swarm id r h)
  handle_swarm_event-linked (SwarmEvent.request tx provided channel k) h =
      holds_of (request_received-Same e eq wire tx provided channel k h)
  handle_swarm_event-linked (SwarmEvent.response id q bytes) h =
      holds_of (response_received-Same e eq wire id q bytes h)
  handle_swarm_event-linked (SwarmEvent.mdns_discovered l) h =
      holds_of (mdns_discovered-Same swarm l h)
  handle_swarm_event-linked (SwarmEvent.mdns_expired l) h = holds_of (mdns_expired-Same swarm l h)
  handle_swarm_event-linked (SwarmEvent.connection_established q endpoint) h =
      contains_key-insert net.eq_peer p q endpoint h.connections.peers
  handle_swarm_event-linked (SwarmEvent.connection_closed q) h =
      let closed = record h {
        connections = record h.connections { peers = remove net.eq_peer q h.connections.peers };
      } in
      holds_of (
        Same-if closed (none_is swarm q h.node_addresses) (call (remove_peer q) closed) closed refl
          refl)
      ∙ contains_key-remove net.eq_peer p q h.connections.peers
  handle_swarm_event-linked SwarmEvent.logged h = refl

  -- After any run of the handler's loop, whatever the events of its queue, of the swarm and of
  -- the cache, a peer is in the table of connections exactly if the last event of the run that
  -- establishes or closes one of its connections establishes it, or if there is no such event
  -- and the peer was in the table before.
  pub start-linked :
      (is : List (Incoming C U net)) (h : EventHandler C F P U net)
      → holds (start e eq wire swarm protocol_ver kad_protocol is h) ≡ linked_after p is (holds h)
  unfolding start round
  start-linked [] h = refl
  start-linked (swarm_event ev ∷ is) h =
      start-linked is _ ∙ ap (linked_after p is) (handle_swarm_event-linked ev h)
  start-linked (runtime_event ev ∷ is) h =
      start-linked is _ ∙ ap (linked_after p is) (holds_of (handle_event-Same e wire swarm eq ev h))
  start-linked (eviction cause val ∷ is) h =
      start-linked is _ ∙ ap (linked_after p is) (holds_of (evicted-Same cause val h))
