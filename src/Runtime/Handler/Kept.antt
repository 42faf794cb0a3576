-- ===== src/Runtime/Handler/Kept.antt =====
-- What leaves the table of connections as it is.
use homestar.Prelude.{
  ◌≡◌, refl, ap, ◌∙◌, List, [], ◌∷◌, ◌++◌, Option, none, some, ℕ, Bool, true, false, if◌then◌else◌,
}
use homestar.Prelude.Classes.{Eq}
use homestar.Result.{Result, ok, err}
use homestar.Foreign.{Foreign}
use homestar.Runtime.Receipt.{Receipt, Failure}
use homestar.Runtime.Info.{Info}
use homestar.Runtime.Info.Translate.{info_capsule}
use homestar.Runtime.Store.{find_receipt_by_cid}
use homestar.Runtime.Resources as Index
use homestar.Runtime.Handler.{
  Net, Call, Swarm, Wire, EventHandler, Event, Captured, Quorum, RequestResponseKey, CacheValue,
  CacheData, DispatchEvent, peer, on_expiration, same_text,
}
use homestar.Runtime.Handler.Made.{gossip-only}
use homestar.Runtime.Handler.Publish.{
  put, put_workflow, put_both, publish_found, publish_and_notify, gossip,
}
use homestar.Runtime.Handler.Events.{
  handle_event, handle_info, find, remove_of, get_providers_of, request_outbound, provide,
  register_at, discover_at, tell_node_info, request_each,
}
use homestar.Runtime.Handler.Cache.{RemovalCause, evicted, listen, dispatch}

module _ {C F P U : Type 0} {net : Net} (h : EventHandler C F P U net) where
  -- the connections stay as they are
  abbrev pub Same : EventHandler C F P U net → Type 0
  Same h' = h'.connections ≡ h.connections

  pub Same-if :
      (b : Bool) (x y : EventHandler C F P U net) → Same x → Same y → Same (if b then x else y)
  Same-if true x y p q = p
  Same-if false x y p q = q

  pub Same-if_second :
      {R : Type 0} (b : Bool) (x y : R × EventHandler C F P U net)
      → Same x.1
      → Same y.1
      → Same (if b then x else y).1
  Same-if_second true x y p q = p
  Same-if_second false x y p q = q

  pub Same-option :
      {A : Type 0} (o : Option A) (x : EventHandler C F P U net) (f : A → EventHandler C F P U net)
      → Same x
      → ((a : A) → Same (f a))
      → Same (elim o [ none ↦ x | some a ↦ f a ])
  Same-option none x f p q = p
  Same-option (some a) x f p q = q a

  pub Same-result :
      {E A : Type 0} (m : Result E A) (f : E → EventHandler C F P U net)
      (g : A → EventHandler C F P U net)
      → ((failure : E) → Same (f failure))
      → ((a : A) → Same (g a))
      → Same (elim m [ err failure ↦ f failure | ok a ↦ g a ])
  Same-result (err failure) f g p q = p failure
  Same-result (ok a) f g p q = q a

  Same-list :
      {A : Type 0} (l : List A) (x : EventHandler C F P U net)
      (f : A → List A → EventHandler C F P U net)
      → Same x
      → ((a : A) (rest : List A) → Same (f a rest))
      → Same (elim l [ [] ↦ x | a ∷ rest ↦ f a rest ])
  Same-list [] x f p q = p
  Same-list (a ∷ rest) x f p q = q a rest

  Same-result_second :
      {E A R : Type 0} (m : Result E A) (f : E → R × EventHandler C F P U net)
      (g : A → R × EventHandler C F P U net)
      → ((failure : E) → Same (f failure).1)
      → ((a : A) → Same (g a).1)
      → (let x : R × EventHandler C F P U net = elim m [ err failure ↦ f failure | ok a ↦ g a ] in
          Same x.1)
  Same-result_second (err failure) f g p q = p failure
  Same-result_second (ok a) f g p q = q a

module _ {C F P U : Type 0} {net : Net} (e : Foreign C F P U) (wire : Wire C F net)
    (swarm : Swarm net) where
  put-Same :
      (key value : List ℕ) (quorum : Quorum) (k : RequestResponseKey) (h : EventHandler C F P U net)
      → Same h (put swarm key value quorum k h)
  unfolding put
  put-Same key value quorum k h =
      Same-if h (swarm.accepted (h.calls ++ Call.put_record key value quorum ∷ [])) _ _ refl refl

  put_workflow-Same :
      (i : Info C U) (quorum : Quorum) (h : EventHandler C F P U net)
      → Same h (put_workflow e wire swarm i quorum h)
  unfolding put_workflow
  put_workflow-Same i quorum h =
      Same-option h (e.encode (info_capsule e i)) _ _ refl (λ b. put-Same _ b quorum _ h)

  put_both-Same :
      (r : Receipt C F P) (i : Info C U) (capsule : Result Failure (List ℕ))
      (h : EventHandler C F P U net)
      → Same h (put_both e wire swarm r i capsule h)
  unfolding put_both
  put_both-Same r i (err _) h = refl
  put_both-Same r i (ok b) h = put_workflow-Same _ _ (put swarm _ b _ _ h) ∙ put-Same _ b _ _ h

  publish_found-Same :
      (captured : Captured C U) (r : Receipt C F P) (h : EventHandler C F P U net)
      → Same h (publish_found e wire swarm captured r h)
  unfolding publish_found
  publish_found-Same captured r h =
      let (cs, only) = gossip-only e wire swarm r h in
      Same-list h h.connections.peers _ _ refl (λ p ps.
        put_both-Same r captured.workflow _ (gossip e wire swarm r h)
        ∙ ap {A = EventHandler C F P U net} (λ x. x.connections) only)

  publish_and_notify-Same :
      (eq : Eq C) (captured : Captured C U) (h : EventHandler C F P U net)
      → Same h (publish_and_notify e wire swarm eq captured h).1
  unfolding publish_and_notify
  publish_and_notify-Same eq captured h =
      Same-if_second h (wire.conn h.calls) _ _
        (Same-result_second h (find_receipt_by_cid eq captured.receipt h.db) _ _ (λ _. refl)
          (λ r. publish_found-Same captured r h))
        refl

  request_each-Same :
      (peers : List net.Peer) (k : RequestResponseKey) (sender : net.Sender)
      (h : EventHandler C F P U net)
      → Same h (request_each peers k sender h)
  unfolding request_each
  request_each-Same [] k sender h = refl
  request_each-Same (p ∷ ps) k sender h = request_each-Same ps k sender _

  -- No event of the queue changes the connections.
  pub handle_event-Same :
      (eq : Eq C) (ev : Event C U net) (h : EventHandler C F P U net)
      → Same h (handle_event e wire swarm eq ev h)
  unfolding handle_event handle_info find remove_of get_providers_of request_outbound provide
      register_at discover_at tell_node_info
  handle_event-Same eq (Event.captured_receipt captured) h = publish_and_notify-Same eq captured h
  handle_event-Same eq (Event.shutdown tx) h = refl
  handle_event-Same eq (Event.find_record q) h = refl
  handle_event-Same eq (Event.remove_record q) h = refl
  handle_event-Same eq (Event.outbound_request r) h = refl
  handle_event-Same eq (Event.get_providers q) h = refl
  handle_event-Same eq (Event.provide_record c sender t) h =
      Same-if_second h (swarm.accepted (h.calls ++ Call.start_providing (wire.cid_to_bytes c) ∷ []))
        _ _ refl refl
  handle_event-Same eq (Event.providers (ok (peers, k, sender))) h =
      request_each-Same peers k sender h
  handle_event-Same eq (Event.providers (err _)) h = refl
  handle_event-Same eq (Event.register_peer p) h = Same-if h swarm.rendezvous_client _ _ refl refl
  handle_event-Same eq (Event.discover_peers p) h = Same-if h swarm.rendezvous_client _ _ refl refl
  handle_event-Same eq (Event.get_node_info tx) h = refl

module _ {C F P U : Type 0} {net : Net} where
  dispatch-Same :
      (ev : DispatchEvent) (node : Option (CacheData net)) (h : EventHandler C F P U net)
      → Same h (dispatch ev node h)
  dispatch-Same ev (some (peer node)) h = refl
  dispatch-Same ev (some (on_expiration _)) h = refl
  dispatch-Same ev none h = refl

  listen-Same :
      (ev : Option (CacheData net)) (cause : RemovalCause) (val : CacheValue net)
      (h : EventHandler C F P U net)
      → Same h (listen ev cause val h)
  listen-Same (some (on_expiration ev)) RemovalCause.expired val h = dispatch-Same ev _ h
  listen-Same (some (on_expiration ev)) RemovalCause.explicit val h = refl
  listen-Same (some (on_expiration ev)) RemovalCause.replaced val h = refl
  listen-Same (some (on_expiration ev)) RemovalCause.size val h = refl
  listen-Same (some (peer _)) cause val h = refl
  listen-Same none cause val h = refl

  -- Nor does the eviction of an entry.
  pub evicted-Same :
      (cause : RemovalCause) (val : CacheValue net) (h : EventHandler C F P U net)
      → Same h (evicted cause val h)
  unfolding evicted
  evicted-Same cause val h =
      listen-Same (Index.get same_text "on_expiration" val.entries) cause val h
