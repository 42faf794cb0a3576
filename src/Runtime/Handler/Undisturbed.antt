-- ===== src/Runtime/Handler/Undisturbed.antt =====
-- The swarm events that leave the table of connections as it is.
use homestar.Prelude.{
  refl, ◌∙◌, List, [], ◌∷◌, Option, none, some, ℕ, String, ◌&&◌, ltb, if◌then◌else◌,
}
use text.Mathlib.Text.{◌==◌}
use homestar.Prelude.Classes.{Eq}
use homestar.Result.{Result, ok, err}
use homestar.Foreign.{Foreign}
use homestar.Runtime.Receipt.{Receipt, Failure}
use homestar.Runtime.Info.{Info}
use homestar.Runtime.Info.Translate.{info_capsule, workflow_tag}
use homestar.Runtime.Store.{Db, get_workflow_info}
use homestar.Runtime.Pubsub as Pubsub
use homestar.Runtime.Resources as Index
use homestar.Runtime.Handler.{
  Net, Swarm, Wire, EventHandler, RequestResponseKey, ResponseEvent, tag,
}
use homestar.Runtime.Handler.Calls.{forget_query}
use homestar.Runtime.Handler.Kept.{Same, Same-if, Same-option, Same-result}
use homestar.Runtime.Handler.Kademlia as Kademlia
use homestar.Runtime.Handler.Kademlia.{
  QueryResult, answer_query, answer, providers_found, tell_providers, record_not_found,
  query_progressed,
}
use homestar.Runtime.Handler.Requests.{
  request_received, response_received, message_received, send_info, respond_to, store_gossiped,
  ask_provider, connected,
}
use homestar.Runtime.Handler.Peers.{
  IdentifyInfo, add_observed, add_listen_addrs, register_and_discover, identify_received,
  mdns_discovered, mdns_remove, mdns_expired, expired, connected_peers, rendezvous_protocol_name,
  contains_protocol,
}

module _ {C F P U : Type 0} {net : Net} where
  answer-Same :
      (sender : Option net.Sender) (r : ResponseEvent C F P U net) (h : EventHandler C F P U net)
      → Same h (answer sender r h)
  answer-Same none r h = refl
  answer-Same (some _) r h = refl

  answer_query-Same :
      (id : net.Query) (r : ResponseEvent C F P U net) (h : EventHandler C F P U net)
      → Same h (answer_query id r h)
  unfolding answer_query
  answer_query-Same id r h =
      Same-option h (Index.get net.eq_query id h.query_senders) _ _ refl
        (λ entry. answer-Same entry.1 r (forget_query id h))

  tell_providers-Same :
      (peers : List net.Peer) (entry : RequestResponseKey × Option net.Sender)
      (h : EventHandler C F P U net)
      → Same h (tell_providers peers entry h)
  tell_providers-Same peers (k, none) h = refl
  tell_providers-Same peers (k, some _) h = refl

  providers_found-Same :
      (id : net.Query) (peers : List net.Peer) (h : EventHandler C F P U net)
      → Same h (providers_found id peers h)
  unfolding providers_found
  providers_found-Same id [] h = refl
  providers_found-Same id (p ∷ ps) h =
      Same-option h (Index.get net.eq_query id h.query_senders) _ _ refl
        (λ entry. tell_providers-Same (p ∷ ps) entry (forget_query id h))

module _ {C F P U : Type 0} {net : Net} (swarm : Swarm net) where
  add_observed-Same :
      (p : net.Peer) (addr : net.Address) (h : EventHandler C F P U net)
      → Same h (add_observed swarm p addr h)
  unfolding add_observed
  add_observed-Same p addr h =
      Same-if h
        (net.eq_peer.beq p swarm.local_peer_id
          && ltb (swarm.external_addresses h.calls) h.external_address_limit)
        _ h (Same-if h (swarm.is_private addr) h _ refl refl) refl

  add_listen_addrs-Same :
      (p : net.Peer) (addrs : List net.Address) (h : EventHandler C F P U net)
      → Same h (add_listen_addrs swarm p addrs h)
  unfolding add_listen_addrs
  add_listen_addrs-Same p [] h = refl
  add_listen_addrs-Same p (addr ∷ addrs) h = add_listen_addrs-Same p addrs _

  register_and_discover-Same :
      (p : net.Peer) (h : EventHandler C F P U net) → Same h (register_and_discover swarm p h)
  unfolding register_and_discover
  register_and_discover-Same p h = Same-if h swarm.rendezvous_client _ h refl refl

  pub identify_received-Same :
      (ver kad : String) (p : net.Peer) (info : IdentifyInfo net) (h : EventHandler C F P U net)
      → Same h (identify_received swarm ver kad p info h)
  unfolding identify_received
  identify_received-Same ver kad p info h =
      let observed = add_observed swarm p info.observed_addr h in
      let seen : Same h observed = add_observed-Same p info.observed_addr h in
      let added = add_listen_addrs swarm p info.listen_addrs observed in
      let listening = if contains_protocol kad info.protocols then added else observed in
      let heard : Same h listening =
        Same-if h (contains_protocol kad info.protocols) added observed
          (add_listen_addrs-Same p info.listen_addrs observed ∙ seen) seen in
      Same-if h (info.protocol_version == ver) _ h
        (Same-if h (contains_protocol rendezvous_protocol_name info.protocols) _ listening
          (register_and_discover-Same p listening ∙ heard) heard)
        refl

  pub expired-Same : (p : net.Peer) (h : EventHandler C F P U net) → Same h (expired swarm p h)
  unfolding expired
  expired-Same p h =
      Same-if h swarm.rendezvous_client _ h
        (Same-option h (Index.get net.eq_peer p h.rendezvous.discovered_peers) _ _ refl (λ _. refl))
        refl

  pub mdns_discovered-Same :
      (l : List (net.Peer × net.Address)) (h : EventHandler C F P U net)
      → Same h (mdns_discovered swarm l h)
  unfolding mdns_discovered
  mdns_discovered-Same [] h = refl
  mdns_discovered-Same ((p, addr) ∷ l) h =
      mdns_discovered-Same l _
      ∙ Same-if h (ltb (connected_peers h) h.connections.max_peers) _ h refl refl

  mdns_remove-Same :
      (l : List (net.Peer × net.Address)) (h : EventHandler C F P U net)
      → Same h (mdns_remove swarm l h)
  unfolding mdns_remove
  mdns_remove-Same [] h = refl
  mdns_remove-Same ((p, addr) ∷ l) h =
      mdns_remove-Same l _ ∙ Same-if h (swarm.has_node h.calls p) _ h refl refl

  pub mdns_expired-Same :
      (l : List (net.Peer × net.Address)) (h : EventHandler C F P U net)
      → Same h (mdns_expired swarm l h)
  unfolding mdns_expired
  mdns_expired-Same l h = Same-if h swarm.mdns _ h (mdns_remove-Same l h) refl

module _ {C F P U : Type 0} {net : Net} (e : Foreign C F P U) (eq : Eq C)
    (wire : Wire C F net) where
  pub query_progressed-Same :
      (swarm : Swarm net) (id : net.Query) (r : QueryResult net) (h : EventHandler C F P U net)
      → Same h (query_progressed e eq wire swarm id r h)
  unfolding query_progressed record_not_found
  query_progressed-Same swarm id (Kademlia.found_providers peers) h = providers_found-Same id _ h
  query_progressed-Same swarm id Kademlia.get_providers_error h = answer_query-Same id _ h
  query_progressed-Same swarm id (Kademlia.found_record key publisher value) h =
      answer_query-Same id _ h
  query_progressed-Same swarm id Kademlia.finished_with_no_additional_record h = refl
  query_progressed-Same swarm id Kademlia.get_record_error h = answer_query-Same id _ h
  query_progressed-Same swarm id Kademlia.put_record_result h = refl
  query_progressed-Same swarm id Kademlia.start_providing_result h = refl
  query_progressed-Same swarm id Kademlia.other h = refl

  send_info-Same :
      (channel : net.Channel) (request : RequestResponseKey) (r : Result Failure (Info C U))
      (h : EventHandler C F P U net)
      → Same h (send_info e eq wire channel request r h)
  unfolding send_info
  send_info-Same channel request (ok i) h =
      Same-option h (e.encode (info_capsule e i)) _ _ refl (λ _. refl)
  send_info-Same channel request (err _) h = refl

  ask_provider-Same :
      (cid : C) (tx : net.Sender) (db : Option (Db C F P U)) (h : EventHandler C F P U net)
      → Same h (ask_provider e eq wire cid tx db h)
  ask_provider-Same cid tx none h = refl
  ask_provider-Same cid tx (some db) h =
      Same-result h (get_workflow_info eq cid db) _ _ (λ _. refl) (λ _. refl)

  pub request_received-Same :
      (tx : net.Sender) (provided : Option (Info C U)) (channel : net.Channel)
      (request : RequestResponseKey) (h : EventHandler C F P U net)
      → Same h (request_received e eq wire tx provided channel request h)
  unfolding request_received
  request_received-Same tx provided channel request h =
      Same-option h (e.cid_from_str request.cid) _ _ refl (λ cid.
        Same-if h (tag request.capsule_tag == workflow_tag) _ _
          (send_info-Same channel request _ _ ∙ ask_provider-Same cid tx (connected e eq wire h) h)
          refl)

  respond_to-Same :
      (entry : RequestResponseKey × net.Sender) (p : net.Peer) (response : List ℕ)
      (h : EventHandler C F P U net)
      → Same h (respond_to e eq wire entry p response h)
  unfolding respond_to
  respond_to-Same (k, sender) p response h =
      Same-option h (e.cid_from_str k.cid) _ _ refl (λ _. refl)

  pub response_received-Same :
      (id : net.Request) (p : net.Peer) (response : List ℕ) (h : EventHandler C F P U net)
      → Same h (response_received e eq wire id p response h)
  unfolding response_received
  response_received-Same id p response h =
      Same-option h (Index.get net.eq_request id h.request_response_senders) _ _ refl
        (λ entry. respond_to-Same entry p response _)

  store_gossiped-Same :
      (m : Result Failure (Pubsub.Message (Receipt C F P))) (h : EventHandler C F P U net)
      → Same h (store_gossiped e eq wire m h)
  unfolding store_gossiped
  store_gossiped-Same (err _) h = refl
  store_gossiped-Same (ok m) h = Same-if h (wire.conn h.calls) _ h refl refl

  pub message_received-Same :
      (bytes : List ℕ) (h : EventHandler C F P U net) → Same h (message_received e eq wire bytes h)
  unfolding message_received
  message_received-Same bytes h = store_gossiped-Same _ h
