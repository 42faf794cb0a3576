-- ===== src/Runtime/Handler/Renewed.antt =====
-- The cache repeats what the handler does with rendezvous nodes.
use mathlib.Core.Path.{subst}
use Prim.Native.String as Text
use homestar.Prelude.{
  ◌≡◌, refl, sym, ap, ◌∙◌, List, [], ◌∷◌, ◌++◌, ◌+◌, some, ℕ, suc, String, inl, inr, Bool, true,
  false, Bool-cases, not, ◌&&◌, ltb, leb, if◌then◌else◌, if_of_true, if_of_false,
}
use homestar.Prelude.Classes.{Eq}
use homestar.Foreign.{Foreign}
use homestar.Runtime.Resources as Index
use homestar.Runtime.Resources.Table.{get-insert_self}
use homestar.Runtime.Handler.{
  Net, Call, Swarm, Wire, EventHandler, Event, CacheValue, event, same_text, discover, register,
  dial,
}
use homestar.Runtime.Handler.Calls.{rendezvous_namespace}
use homestar.Runtime.Handler.Cache.{RemovalCause, evicted}
use homestar.Runtime.Handler.Events.{handle_event, handle_info, discover_at, register_at}
use homestar.Runtime.Handler.Peers.{
  Registration, dial_discovered, dial_each, new_registrations, discovered, registered, is_ours,
  connected_peers, keep_discovery, with_cookie,
}

module _ {C F P U : Type 0} {net : Net} (swarm : Swarm net) (node : net.Peer) where
  dial_discovered-cookies :
      (r : Registration net) (h : EventHandler C F P U net)
      → (dial_discovered swarm node r h).rendezvous.cookies ≡ h.rendezvous.cookies
  unfolding dial_discovered
  dial_discovered-cookies r h =
      elim (Bool-cases (swarm.accepted (h.calls ++ dial r.peer_id r.addresses ∷ []))) [
        | inl y ↦ rw y refl
        | inr y ↦ rw y refl
      ]

  if-cookies :
      (b : Bool) (x h : EventHandler C F P U net)
      → x.rendezvous.cookies ≡ h.rendezvous.cookies
      → (if b then x else h).rendezvous.cookies ≡ h.rendezvous.cookies
  if-cookies true x h k = k
  if-cookies false x h k = refl

  -- Dialing keeps the cookies.
  dial_each-cookies :
      (count index : ℕ) (rs : List (Registration net)) (h : EventHandler C F P U net)
      → (dial_each swarm node count index rs h).rendezvous.cookies ≡ h.rendezvous.cookies
  unfolding dial_each
  dial_each-cookies count index [] h = refl
  dial_each-cookies count index (r ∷ rs) h =
      dial_each-cookies count (suc index) rs _
      ∙ if-cookies
          (not (net.eq_peer.beq r.peer_id swarm.local_peer_id)
            && ltb (count + index) h.connections.max_peers)
          (dial_discovered swarm node r h) h (dial_discovered-cookies r h)

abbrev pub discovery_name : {net : Net} → Swarm net → net.Peer → String
discovery_name swarm node = Text.◌++◌ (swarm.peer_to_string node) "-discover"

module _ {C F P U : Type 0} {net : Net} (e : Foreign C F P U) (eq : Eq C) (wire : Wire C F net)
    (swarm : Swarm net) (node : net.Peer) where
  -- What the cache holds under a name, the message that its expiry puts into the queue of any later
  -- state, and the calls that this message then leads to.
  pub record Renews (h : EventHandler C F P U net) (name : String) (ev : Event C U net)
      (c : Call net) : Type 0 where
    pub entry : CacheValue net
    pub kept : Index.get same_text name h.cache ≡ some entry
    pub queued :
        (i : EventHandler C F P U net)
        → (evicted RemovalCause.expired entry i).sent ≡ i.sent ++ event ev ∷ []
    pub handled : (handle_event e wire swarm eq ev h).calls ≡ h.calls ++ c ∷ []

  discover_at-calls :
      (cookie : net.Cookie) (h : EventHandler C F P U net)
      → swarm.rendezvous_client ≡ true
      → Index.get net.eq_peer node h.rendezvous.cookies ≡ some cookie
      → (discover_at swarm node h).calls
        ≡ h.calls ++ discover rendezvous_namespace (some cookie) node ∷ []
  unfolding discover_at
  discover_at-calls cookie h client k =
      ap {A = EventHandler C F P U net} (λ x. x.calls)
        (if_of_true swarm.rendezvous_client _ _ client)
      ∙ ap (λ c. h.calls ++ discover rendezvous_namespace c node ∷ []) k

  keep_discovery-Renews :
      (cookie : net.Cookie) (h : EventHandler C F P U net)
      → swarm.rendezvous_client ≡ true
      → Index.get net.eq_peer node h.rendezvous.cookies ≡ some cookie
      → Renews
          (keep_discovery swarm node h)
          (discovery_name swarm node)
          (Event.discover_peers node)
          (discover rendezvous_namespace (some cookie) node)
  unfolding evicted handle_event handle_info Index.get
  keep_discovery-Renews cookie h client k = record {
    entry = _;
    kept = get-insert_self same_text (discovery_name swarm node) _ h.cache;
    queued = λ i. refl;
    handled = discover_at-calls cookie (keep_discovery swarm node h) client k;
  }

  -- With a rendezvous client, a discovery in our namespace that finds room for a connection is
  -- repeated: its entry in the cache, on expiry, has the handler discover peers at the same
  -- node again, with the cookie that it has received.
  pub discovered-Renews :
      (rs : List (Registration net)) (cookie : net.Cookie) (h : EventHandler C F P U net)
      → swarm.rendezvous_client ≡ true
      → is_ours (swarm.namespace cookie) ≡ true
      → leb h.connections.max_peers (connected_peers h) ≡ false
      → Renews
          (discovered swarm node rs cookie h)
          (discovery_name swarm node)
          (Event.discover_peers node)
          (discover rendezvous_namespace (some cookie) node)
  unfolding discovered
  discovered-Renews rs cookie h client ours room =
      let renews = λ (x : EventHandler C F P U net).
        Renews x (discovery_name swarm node) (Event.discover_peers node)
          (discover rendezvous_namespace (some cookie) node) in
      let stored = with_cookie swarm node cookie h in
      let news = new_registrations swarm rs stored in
      let after = dial_each swarm node (connected_peers h) 0 news stored in
      subst renews (sym (if_of_true (is_ours (swarm.namespace cookie)) _ h ours)) (
        subst renews
          (sym (if_of_false (leb h.connections.max_peers (connected_peers h)) stored _ room))
          (keep_discovery-Renews cookie after client (
            ap (Index.get net.eq_peer node)
              (dial_each-cookies swarm node (connected_peers h) 0 news stored)
            ∙ get-insert_self net.eq_peer node cookie h.rendezvous.cookies)))

  -- With a rendezvous client, a registration is renewed: its entry in the cache, on expiry, has the
  -- handler register at the same node again, for the configured time.
  pub registered-Renews :
      (h : EventHandler C F P U net)
      → swarm.rendezvous_client ≡ true
      → Renews
          (registered swarm node h)
          (Text.◌++◌ (swarm.peer_to_string node) "-register")
          (Event.register_peer node)
          (register rendezvous_namespace node h.rendezvous.registration_ttl)
  unfolding registered evicted handle_event handle_info register_at Index.get
  registered-Renews h client = record {
    entry = _;
    kept = get-insert_self same_text _ _ h.cache;
    queued = λ i. refl;
    handled =
        ap {A = EventHandler C F P U net} (λ x. x.calls)
          (if_of_true swarm.rendezvous_client _ _ client);
  }
