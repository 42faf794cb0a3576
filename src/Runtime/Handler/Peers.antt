-- ===== src/Runtime/Handler/Peers.antt =====
-- Peers in homestar-runtime/src/event_handler/swarm_event.rs: identification, rendezvous, mDNS, and the
-- table of connections. The version of the protocol, which the build gives, and kademlia's protocol
-- name are arguments.
use text.Mathlib.Text.{◌==◌}
use Prim.Native.String.{◌++◌}
use homestar.Prelude.{
  ℕ, suc, ◌+◌, String, Option, none, some, List, [], ◌∷◌, if◌then◌else◌, Bool, true, false, ◌&&◌,
  not, ltb, leb, length,
}
use homestar.Prelude.Classes.{Eq}
use homestar.Prelude.Table.{exists, select}
use homestar.Runtime.Resources as Index
use homestar.Runtime.Handler.{
  Net, Swarm, EventHandler, register_peer, discover_peers, peer, on_expiration, discover, dial,
  add_address, remove_address, remove_peer, add_external_address,
}
use homestar.Runtime.Handler.Calls.{call, keep, remove, rendezvous_namespace, register_with}

-- `identify::Info`
pub record IdentifyInfo (net : Net) : Type 0 where
  pub protocol_version : String
  pub observed_addr : net.Address
  pub listen_addrs : List net.Address
  pub protocols : List String

-- the record of a `rendezvous::Registration`
pub record Registration (net : Net) : Type 0 where
  pub peer_id : net.Peer
  pub addresses : List net.Address

abbrev pub rendezvous_protocol_name : String
rendezvous_protocol_name = "/rendezvous/1.0.0"

abbrev pub contains_protocol : String → List String → Bool
contains_protocol name protocols = exists (λ p. p == name) protocols

-- `peers.contains_key(&peer_id)`
abbrev pub contains_key : {K V : Type 0} → Eq K → K → List (K × V) → Bool
contains_key eq k m = exists (λ entry. eq.beq k entry.0) m

-- `connections.peers.len()`
abbrev pub connected_peers : {C F P U : Type 0} {net : Net} → EventHandler C F P U net → ℕ
connected_peers h = length h.connections.peers

-- `cookie.namespace() == Some(&Namespace::from_static(RENDEZVOUS_NAMESPACE))`
abbrev pub is_ours : Option String → Bool
is_ours none = false
is_ours (some name) = name == rendezvous_namespace

module _ {net : Net} (swarm : Swarm net) where
  -- the test on the configured node addresses: an address without a peer passes
  abbrev pub is_other : net.Peer → Option net.Peer → Bool
  is_other p none = true
  is_other p (some q) = not (net.eq_peer.beq q p)

  unfoldable pub none_is : net.Peer → List net.Address → Bool
  none_is p [] = true
  none_is p (addr ∷ addrs) = is_other p (swarm.peer_id addr) && none_is p addrs

module _ {C F P U : Type 0} {net : Net} (swarm : Swarm net) where
  -- the own observed address becomes an external one
  unfoldable pub add_observed :
      net.Peer → net.Address → EventHandler C F P U net → EventHandler C F P U net
  add_observed p addr h =
      if net.eq_peer.beq p swarm.local_peer_id
        && ltb (swarm.external_addresses h.calls) h.external_address_limit
      then (if swarm.is_private addr then h else call (add_external_address addr) h)
      else h

  unfoldable pub add_listen_addrs :
      net.Peer → List net.Address → EventHandler C F P U net → EventHandler C F P U net
  add_listen_addrs p [] h = h
  add_listen_addrs p (addr ∷ addrs) h = add_listen_addrs p addrs (call (add_address p addr) h)

  -- registration and discovery with a node that runs the rendezvous protocol
  unfoldable pub register_and_discover :
      net.Peer → EventHandler C F P U net → EventHandler C F P U net
  register_and_discover p h =
      if swarm.rendezvous_client
      then call (discover rendezvous_namespace none p) (register_with p h)
      else h

  -- the arm of `identify::Event::Received`
  unfoldable pub identify_received :
      String
      → String
      → net.Peer
      → IdentifyInfo net
      → EventHandler C F P U net
      → EventHandler C F P U net
  unfolding add_observed add_listen_addrs register_and_discover
  identify_received protocol_ver kad_protocol p info h =
      if info.protocol_version == protocol_ver
      then (let observed = add_observed p info.observed_addr h in
          let listening =
            if contains_protocol kad_protocol info.protocols
            then add_listen_addrs p info.listen_addrs observed
            else observed in
          if contains_protocol rendezvous_protocol_name info.protocols
          then register_and_discover p listening
          else listening)
      else h

  -- `match event_handler.swarm.dial(opts)`
  unfoldable pub dial_discovered :
      net.Peer → Registration net → EventHandler C F P U net → EventHandler C F P U net
  dial_discovered node r h =
      let h' = call (dial r.peer_id r.addresses) h in
      if swarm.accepted h'.calls
      then record h' {
        rendezvous = record h'.rendezvous {
          discovered_peers =
              Index.insert net.eq_peer r.peer_id (record { rendezvous_point = node })
                h'.rendezvous.discovered_peers;
        };
      }
      else h'

  -- the loop over the new registrations, from `index` on
  unfoldable pub dial_each :
      net.Peer
      → ℕ
      → ℕ
      → List (Registration net)
      → EventHandler C F P U net
      → EventHandler C F P U net
  unfolding dial_discovered
  dial_each node count index [] h = h
  dial_each node count index (r ∷ rs) h = dial_each node count (suc index) rs (
      if not (net.eq_peer.beq r.peer_id swarm.local_peer_id)
        && ltb (count + index) h.connections.max_peers
      then dial_discovered node r h
      else h)

  -- the entry of the cache for the next discovery
  abbrev pub keep_discovery : net.Peer → EventHandler C F P U net → EventHandler C F P U net
  keep_discovery node h =
      keep (swarm.peer_to_string node ++ "-discover")
        (record {
          expiration = h.rendezvous.discovery_interval;
          entries =
              ("on_expiration", on_expiration discover_peers) ∷ ("rendezvous_node", peer node) ∷ [];
        })
        h

  -- the peers that are not connected
  unfoldable pub new_registrations :
      List (Registration net) → EventHandler C F P U net → List (Registration net)
  new_registrations registrations h =
      select (λ r. not (contains_key net.eq_peer r.peer_id h.connections.peers)) registrations

  -- `cookies.insert(rendezvous_node, cookie)`
  abbrev pub with_cookie :
      net.Peer → net.Cookie → EventHandler C F P U net → EventHandler C F P U net
  with_cookie node cookie h = record h {
    rendezvous = record h.rendezvous {
      cookies = Index.insert net.eq_peer node cookie h.rendezvous.cookies;
    };
  }

  -- the arm of `Discovered`
  unfoldable pub discovered :
      net.Peer
      → List (Registration net)
      → net.Cookie
      → EventHandler C F P U net
      → EventHandler C F P U net
  unfolding dial_each new_registrations
  discovered node registrations cookie h =
      let stored = with_cookie node cookie h in
      if is_ours (swarm.namespace cookie)
      then (if leb h.connections.max_peers (connected_peers h)
          then stored
          else keep_discovery node (
              dial_each node (connected_peers h) 0 (new_registrations registrations stored) stored))
      else h

  -- the arm of `Registered`
  unfoldable pub registered : net.Peer → EventHandler C F P U net → EventHandler C F P U net
  registered node h =
      keep (swarm.peer_to_string node ++ "-register")
        (record {
          expiration = h.rendezvous.registration_ttl;
          entries =
              ("on_expiration", on_expiration register_peer) ∷ ("rendezvous_node", peer node) ∷ [];
        })
        h

  -- the arm of `Expired`
  unfoldable pub expired : net.Peer → EventHandler C F P U net → EventHandler C F P U net
  expired p h =
      let cookie = Index.get net.eq_peer p h.rendezvous.cookies in
      let removed = record h {
        rendezvous = record h.rendezvous {
          discovered_peers = remove net.eq_peer p h.rendezvous.discovered_peers;
        };
      } in
      if swarm.rendezvous_client
      then elim (Index.get net.eq_peer p h.rendezvous.discovered_peers) [
        | none ↦ h
        | some discovery_info ↦
            call (discover rendezvous_namespace cookie discovery_info.rendezvous_point) removed
      ]
      else h

  -- the arm of `mdns::Event::Discovered`
  unfoldable pub mdns_discovered :
      List (net.Peer × net.Address) → EventHandler C F P U net → EventHandler C F P U net
  mdns_discovered [] h = h
  mdns_discovered ((p, addr) ∷ rest) h =
      mdns_discovered rest
        (if ltb (connected_peers h) h.connections.max_peers then call (dial p (addr ∷ [])) h else h)

  -- the loop in the arm of `mdns::Event::Expired`
  unfoldable pub mdns_remove :
      List (net.Peer × net.Address) → EventHandler C F P U net → EventHandler C F P U net
  mdns_remove [] h = h
  mdns_remove ((p, addr) ∷ rest) h =
      mdns_remove rest (if swarm.has_node h.calls p then call (remove_address p addr) h else h)

  unfoldable pub mdns_expired :
      List (net.Peer × net.Address) → EventHandler C F P U net → EventHandler C F P U net
  unfolding mdns_remove
  mdns_expired list h = if swarm.mdns then mdns_remove list h else h

  -- the arm of `ConnectionEstablished`
  unfoldable pub connection_established :
      net.Peer → net.Endpoint → EventHandler C F P U net → EventHandler C F P U net
  connection_established p endpoint h = record h {
    connections = record h.connections {
      peers = Index.insert net.eq_peer p endpoint h.connections.peers;
    };
  }

  -- the arm of `ConnectionClosed`
  unfoldable pub connection_closed : net.Peer → EventHandler C F P U net → EventHandler C F P U net
  unfolding none_is
  connection_closed p h =
      let h' = record h {
        connections = record h.connections { peers = remove net.eq_peer p h.connections.peers };
      } in
      if none_is swarm p h'.node_addresses then call (remove_peer p) h' else h'
