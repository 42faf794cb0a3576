-- ===== src/Runtime/Handler/Events.antt =====
-- `Event` of homestar-runtime/src/event_handler/event.rs: what the handler does with the events of
-- its own queue.
use homestar.Prelude.{Option, List, [], ◌∷◌, if◌then◌else◌}
use homestar.Prelude.Classes.{Eq}
use homestar.Result.{Result, ok, err}
use homestar.Foreign.{Foreign}
use homestar.Runtime.Receipt.{Failure, failed}
use homestar.Runtime.Resources as Index
use homestar.Runtime.Handler.{
  Net, Call, Swarm, Wire, EventHandler, Event, QueryRecord, PeerRequest, RequestResponseKey,
  CapsuleTag, captured_receipt, shutdown, outbound_request, provide_record, providers,
  register_peer, discover_peers, get_node_info, done, node_info, event, send_request, discover,
  stop_providing, start_providing,
}
use homestar.Runtime.Handler.Calls.{call, send, await_query, rendezvous_namespace, register_with}
use homestar.Runtime.Handler.Publish.{publish_and_notify}

-- the `fold` over the connected peers
unfoldable pub remote_addresses :
    {net : Net}
    → Swarm net
    → List (net.Peer × net.Address)
    → List (net.Peer × net.Endpoint)
    → List (net.Peer × net.Address)
remote_addresses swarm acc [] = acc
remote_addresses {net} swarm acc ((peer, endpoint) ∷ peers) =
    remote_addresses swarm (Index.insert net.eq_peer peer (swarm.get_remote_address endpoint) acc)
      peers

module _ {C F P U : Type 0} {net : Net} where
  -- the loop of `Providers`: a request to each peer is put into the queue
  unfoldable pub request_each :
      List net.Peer
      → RequestResponseKey
      → net.Sender
      → EventHandler C F P U net
      → EventHandler C F P U net
  request_each [] key sender h = h
  request_each (peer ∷ peers) key sender h =
      request_each peers key sender
        (send (event (outbound_request (record { peer = peer; request = key; sender = sender }))) h)

module _ {C F P U : Type 0} {net : Net} (swarm : Swarm net) where
  -- the arm of `OutboundRequest`
  unfoldable pub request_outbound :
      PeerRequest net → EventHandler C F P U net → EventHandler C F P U net
  request_outbound r h =
      let h' = call (send_request r.peer r.request) h in
      record h' {
        request_response_senders =
            Index.insert net.eq_request (swarm.request_id h'.calls) (r.request, r.sender)
              h'.request_response_senders;
      }

  -- the arm of `RegisterPeer`
  unfoldable pub register_at : net.Peer → EventHandler C F P U net → EventHandler C F P U net
  register_at peer h = if swarm.rendezvous_client then register_with peer h else h

  -- the arm of `DiscoverPeers`
  unfoldable pub discover_at : net.Peer → EventHandler C F P U net → EventHandler C F P U net
  discover_at peer h =
      if swarm.rendezvous_client
      then call
          (discover rendezvous_namespace (Index.get net.eq_peer peer h.rendezvous.cookies) peer) h
      else h

  -- the arm of `GetNodeInfo`
  unfoldable pub tell_node_info : net.Sender → EventHandler C F P U net → EventHandler C F P U net
  unfolding remote_addresses
  tell_node_info tx h =
      send (node_info tx (swarm.listeners h.calls) (remote_addresses swarm [] h.connections.peers))
        h

module _ {C F P U : Type 0} {net : Net} (e : Foreign C F P U) (wire : Wire C F net)
    (swarm : Swarm net) where
  -- `RequestResponseKey::new(cid.to_string().into(), capsule_tag)`
  abbrev pub key_of : C → CapsuleTag → RequestResponseKey
  key_of c t = record { cid = e.cid_to_string c; capsule_tag = t }

  -- `QueryRecord::find`
  unfoldable pub find : QueryRecord C net → EventHandler C F P U net → EventHandler C F P U net
  find q h =
      await_query swarm (key_of q.cid q.capsule) q.sender
        (call (Call.get_record (wire.cid_to_bytes q.cid)) h)

  -- `QueryRecord::remove`
  unfoldable pub remove_of : QueryRecord C net → EventHandler C F P U net → EventHandler C F P U net
  remove_of q h =
      call (stop_providing (wire.cid_to_bytes q.cid))
        (call (Call.remove_record (wire.cid_to_bytes q.cid)) h)

  -- `QueryRecord::get_providers`
  unfoldable pub get_providers_of :
      QueryRecord C net → EventHandler C F P U net → EventHandler C F P U net
  get_providers_of q h =
      await_query swarm (key_of q.cid q.capsule) q.sender
        (call (Call.get_providers (wire.cid_to_bytes q.cid)) h)

  -- the arm of `ProvideRecord`, where an error ends `handle_info`
  unfoldable pub provide :
      C
      → Option net.Sender
      → CapsuleTag
      → EventHandler C F P U net
      → Result Failure (Unit {0}) × EventHandler C F P U net
  provide c sender capsule_tag h =
      let h' = call (start_providing (wire.cid_to_bytes c)) h in
      if swarm.accepted h'.calls
      then (ok tt, await_query swarm (key_of c capsule_tag) sender h')
      else (err failed, h')

  -- `Event::handle_info`
  unfoldable pub handle_info :
      Eq C
      → Event C U net
      → EventHandler C F P U net
      → Result Failure (Unit {0}) × EventHandler C F P U net
  unfolding find remove_of get_providers_of request_outbound provide request_each register_at
      discover_at tell_node_info
  handle_info eq (captured_receipt captured) h =
      (ok tt, (publish_and_notify e wire swarm eq captured h).1)
  handle_info eq (shutdown tx) h = (ok tt, send (done tx) h)
  handle_info eq (get_node_info tx) h = (ok tt, tell_node_info swarm tx h)
  handle_info eq (Event.find_record q) h = (ok tt, find q h)
  handle_info eq (Event.remove_record q) h = (ok tt, remove_of q h)
  handle_info eq (outbound_request r) h = (ok tt, request_outbound swarm r h)
  handle_info eq (Event.get_providers q) h = (ok tt, get_providers_of q h)
  handle_info eq (provide_record c sender capsule_tag) h = provide c sender capsule_tag h
  handle_info eq (providers (ok (peers, key, sender))) h = (ok tt, request_each peers key sender h)
  handle_info eq (providers (err failure)) h = (ok tt, h)
  handle_info eq (register_peer peer) h = (ok tt, register_at swarm peer h)
  handle_info eq (discover_peers peer) h = (ok tt, discover_at swarm peer h)

  -- `Handler::handle_event` for `Event`, which only logs the error
  unfoldable pub handle_event :
      Eq C → Event C U net → EventHandler C F P U net → EventHandler C F P U net
  unfolding handle_info
  handle_event eq ev h = (handle_info eq ev h).1
