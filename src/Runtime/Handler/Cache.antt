-- ===== src/Runtime/Handler/Cache.antt =====
-- The eviction listener of homestar-runtime/src/event_handler/cache.rs: an entry that has expired puts
-- its event into the handler's queue. `RemovalCause` is moka's.
use homestar.Prelude.{Option, none, some}
use homestar.Runtime.Resources as Index
use homestar.Runtime.Handler.{
  Net, EventHandler, Event, CacheData, CacheValue, DispatchEvent, on_expiration, peer, event,
  same_text,
}
use homestar.Runtime.Handler.Calls.{send}

pub data RemovalCause : Type 0 where
  expired explicit replaced size : RemovalCause

abbrev pub dispatched : {C U : Type 0} {net : Net} → DispatchEvent → net.Peer → Event C U net
dispatched DispatchEvent.register_peer node = Event.register_peer node
dispatched DispatchEvent.discover_peers node = Event.discover_peers node

module _ {C F P U : Type 0} {net : Net} where
  -- `if let Some(CacheData::Peer(rendezvous_node)) = val.data.get("rendezvous_node")`
  abbrev pub dispatch :
      DispatchEvent → Option (CacheData net) → EventHandler C F P U net → EventHandler C F P U net
  dispatch ev (some (peer node)) h = send (event (dispatched ev node)) h
  dispatch ev (some (on_expiration _)) h = h
  dispatch ev none h = h

  -- the listener on what stands under `on_expiration`
  abbrev pub listen :
      Option (CacheData net)
      → RemovalCause
      → CacheValue net
      → EventHandler C F P U net
      → EventHandler C F P U net
  listen (some (on_expiration ev)) expired val h =
      dispatch ev (Index.get same_text "rendezvous_node" val.entries) h
  listen _ _ val h = h

  -- `eviction_listener`
  unfoldable pub evicted :
      RemovalCause → CacheValue net → EventHandler C F P U net → EventHandler C F P U net
  evicted cause val h = listen (Index.get same_text "on_expiration" val.entries) cause val h
