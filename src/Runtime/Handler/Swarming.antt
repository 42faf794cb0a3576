-- ===== src/Runtime/Handler/Swarming.antt =====
-- `handle_swarm_event` of homestar-runtime/src/event_handler/swarm_event.rs, and the loop of
-- `EventHandler::start`, which takes the events of the queue and of the swarm as they come. Swarm
-- events that are only logged are `logged`.
use homestar.Prelude.{ℕ, String, Option, List, [], ◌∷◌}
use homestar.Prelude.Classes.{Eq}
use homestar.Foreign.{Foreign}
use homestar.Runtime.Info.{Info}
use homestar.Runtime.Handler.{Net, Swarm, Wire, EventHandler, Event, RequestResponseKey, CacheValue}
use homestar.Runtime.Handler.Events.{handle_event}
use homestar.Runtime.Handler.Kademlia.{QueryResult, query_progressed}
use homestar.Runtime.Handler.Requests.{request_received, response_received, message_received}
use homestar.Runtime.Handler.Cache.{RemovalCause, evicted}
use homestar.Runtime.Handler.Peers as Peers
use homestar.Runtime.Handler.Peers.{IdentifyInfo, Registration}

pub data SwarmEvent (C U : Type 0) (net : Net) : Type 0 where
  identify_received : net.Peer → IdentifyInfo net → SwarmEvent C U net
  discovered : net.Peer → List (Registration net) → net.Cookie → SwarmEvent C U net
  registered : net.Peer → SwarmEvent C U net
  expired : net.Peer → SwarmEvent C U net
  message : List ℕ → SwarmEvent C U net
  progressed : net.Query → QueryResult net → SwarmEvent C U net
  -- a request, with the channel and the provider's answer of `Info::retrieve`
  request : net.Sender → Option (Info C U) → net.Channel → RequestResponseKey → SwarmEvent C U net
  response : net.Request → net.Peer → List ℕ → SwarmEvent C U net
  mdns_discovered : List (net.Peer × net.Address) → SwarmEvent C U net
  mdns_expired : List (net.Peer × net.Address) → SwarmEvent C U net
  connection_established : net.Peer → net.Endpoint → SwarmEvent C U net
  connection_closed : net.Peer → SwarmEvent C U net
  logged : SwarmEvent C U net

-- what the handler's loop takes next, or the cache evicts
pub data Incoming (C U : Type 0) (net : Net) : Type 0 where
  runtime_event : Event C U net → Incoming C U net
  swarm_event : SwarmEvent C U net → Incoming C U net
  eviction : RemovalCause → CacheValue net → Incoming C U net

module _ {C F P U : Type 0} {net : Net} (e : Foreign C F P U) (eq : Eq C) (wire : Wire C F net)
    (swarm : Swarm net) (protocol_ver kad_protocol : String) where
  -- `handle_swarm_event`
  unfoldable pub handle_swarm_event :
      SwarmEvent C U net → EventHandler C F P U net → EventHandler C F P U net
  handle_swarm_event (SwarmEvent.identify_received p info) h =
      Peers.identify_received swarm protocol_ver kad_protocol p info h
  handle_swarm_event (SwarmEvent.discovered node registrations cookie) h =
      Peers.discovered swarm node registrations cookie h
  handle_swarm_event (SwarmEvent.registered node) h = Peers.registered swarm node h
  handle_swarm_event (SwarmEvent.expired p) h = Peers.expired swarm p h
  handle_swarm_event (message bytes) h = message_received e eq wire bytes h
  handle_swarm_event (progressed id result) h = query_progressed e eq wire swarm id result h
  handle_swarm_event (request tx provided channel key) h =
      request_received e eq wire tx provided channel key h
  handle_swarm_event (response id p bytes) h = response_received e eq wire id p bytes h
  handle_swarm_event (SwarmEvent.mdns_discovered list) h = Peers.mdns_discovered swarm list h
  handle_swarm_event (SwarmEvent.mdns_expired list) h = Peers.mdns_expired swarm list h
  handle_swarm_event (SwarmEvent.connection_established p endpoint) h =
      Peers.connection_established swarm p endpoint h
  handle_swarm_event (SwarmEvent.connection_closed p) h = Peers.connection_closed swarm p h
  handle_swarm_event logged h = h

  -- one round of the loop
  unfoldable pub round : Incoming C U net → EventHandler C F P U net → EventHandler C F P U net
  unfolding handle_swarm_event
  round (runtime_event ev) h = handle_event e wire swarm eq ev h
  round (swarm_event ev) h = handle_swarm_event ev h
  round (eviction cause val) h = evicted cause val h

  -- `EventHandler::start`, for what comes in
  unfoldable pub start :
      List (Incoming C U net) → EventHandler C F P U net → EventHandler C F P U net
  unfolding round
  start [] h = h
  start (i ∷ is) h = start is (round i h)
