-- ===== src/Runtime/Handler/Dials.antt =====
-- Which peers are dialed, and how many.
use homestar.Prelude.{
  ◌≡◌, refl, sym, ap, ◌∙◌, List, [], ◌∷◌, ◌++◌, ◌+◌, ◌-◌, ◌≤◌, ℕ, suc, length, length-append, inl,
  inr, Bool, true, false, Bool-cases, not, ◌&&◌, ltb, leb, ltb→lt, ◌<◌, if◌then◌else◌, arith,
  if_of_true, if_of_false,
}
use mathlib.Core.Path.{subst}
use mathlib.Core.List.{append_assoc, append-nil}
use homestar.Prelude.Vec.{All, All-append, All-imp}
use homestar.Prelude.Table.{select, exists}
use homestar.Runtime.Handler.{Net, Call, Swarm, EventHandler, dial}
use homestar.Runtime.Handler.Peers.{
  Registration, dial_discovered, dial_each, new_registrations, discovered, contains_key, is_ours,
  connected_peers, keep_discovery, with_cookie,
}

-- the peer that a call dials
abbrev pub dialed_by : {net : Net} → Call net → List net.Peer
dialed_by (dial p _) = p ∷ []
dialed_by _ = []

abbrev pub dialed : {net : Net} → List (Call net) → List net.Peer
dialed [] = []
dialed (c ∷ cs) = dialed_by c ++ dialed cs

dialed-snoc :
    {net : Net} (p : net.Peer) (addrs : List net.Address) (cs : List (Call net))
    → dialed (cs ++ dial p addrs ∷ []) ≡ dialed cs ++ p ∷ []
dialed-snoc p addrs [] = refl
dialed-snoc p addrs (c ∷ cs) =
    ap (λ l. dialed_by c ++ l) (dialed-snoc p addrs cs)
    ∙ sym (append_assoc (dialed_by c) (dialed cs) (p ∷ []))

is_free : (x : Bool) (a b : ℕ) → (not x && ltb a b) ≡ true → (x ≡ false) × (a < b)
is_free true a b h = cc
is_free false a b h = (refl, ltb→lt a b h)

module _ {net : Net} (swarm : Swarm net) (Q : net.Peer → Type 0) where
  -- a peer that is not this node, and has the property
  abbrev pub IsDialable : net.Peer → Type 0
  IsDialable p = Q p × (net.eq_peer.beq p swarm.local_peer_id ≡ false)

module _ {C F P U : Type 0} {net : Net} (swarm : Swarm net) (Q : net.Peer → Type 0) where
  -- The peers that were dialed on the way from `h` to `h'`: none of them is this node, all have the
  -- property, and there are not more than `room`.
  pub record Dialed (room : ℕ) (h h' : EventHandler C F P U net) : Type 0 where
    pub peers : List net.Peer
    pub made : dialed h'.calls ≡ dialed h.calls ++ peers
    pub few : length peers ≤ room
    pub all : All (IsDialable swarm Q) peers
    pub same : h'.connections ≡ h.connections

  pub Dialed-refl : (room : ℕ) (h : EventHandler C F P U net) → Dialed room h h
  Dialed-refl room h = record {
    peers = [];
    made = sym (append-nil (dialed h.calls));
    few = omega arith;
    all = tt;
    same = refl;
  }

  pub Dialed-if :
      (room : ℕ) (h : EventHandler C F P U net) (b : Bool) (x y : EventHandler C F P U net)
      → Dialed room h x
      → Dialed room h y
      → Dialed room h (if b then x else y)
  Dialed-if room h true x y d f = d
  Dialed-if room h false x y d f = f

  -- What neither calls nor changes the connections, changes nothing of this.
  pub Dialed-kept :
      (room : ℕ) (h i j : EventHandler C F P U net)
      → Dialed room h i
      → j.calls ≡ i.calls
      → j.connections ≡ i.connections
      → Dialed room h j
  Dialed-kept room h i j d c k = record {
    peers = d.peers;
    made = ap dialed c ∙ d.made;
    few = d.few;
    all = d.all;
    same = k ∙ d.same;
  }

  pub Dialed-from :
      (less room : ℕ) (h i j : EventHandler C F P U net)
      → Dialed less i j
      → less ≤ room
      → i.calls ≡ h.calls
      → i.connections ≡ h.connections
      → Dialed room h j
  Dialed-from less room h i j d le c k = record {
    peers = d.peers;
    made = d.made ∙ ap (λ cs. dialed cs ++ d.peers) c;
    few = omega (arith, d.few, le);
    all = d.all;
    same = d.same ∙ k;
  }

  Dialed-trans :
      (a b room : ℕ) (h i j : EventHandler C F P U net)
      → Dialed a h i
      → Dialed b i j
      → a + b ≤ room
      → Dialed room h j
  Dialed-trans a b room h i j d f le = record {
    peers = d.peers ++ f.peers;
    made = f.made ∙ ap (λ l. l ++ f.peers) d.made ∙ append_assoc (dialed h.calls) d.peers f.peers;
    few = omega (arith, length-append d.peers f.peers, d.few, f.few);
    all = All-append (IsDialable swarm Q) d.peers f.peers d.all f.all;
    same = f.same ∙ d.same;
  }

  module _ (node : net.Peer) where
    -- one dial
    dial_discovered-calls :
        (r : Registration net) (h : EventHandler C F P U net)
        → (dial_discovered swarm node r h).calls ≡ h.calls ++ dial r.peer_id r.addresses ∷ []
    unfolding dial_discovered
    dial_discovered-calls r h =
        elim (Bool-cases (swarm.accepted (h.calls ++ dial r.peer_id r.addresses ∷ []))) [
          | inl y ↦ rw y refl
          | inr y ↦ rw y refl
        ]

    dial_discovered-connections :
        (r : Registration net) (h : EventHandler C F P U net)
        → (dial_discovered swarm node r h).connections ≡ h.connections
    unfolding dial_discovered
    dial_discovered-connections r h =
        elim (Bool-cases (swarm.accepted (h.calls ++ dial r.peer_id r.addresses ∷ []))) [
          | inl y ↦ rw y refl
          | inr y ↦ rw y refl
        ]

    dial_discovered-Dialed :
        (r : Registration net) (h : EventHandler C F P U net)
        → IsDialable swarm Q r.peer_id
        → Dialed 1 h (dial_discovered swarm node r h)
    dial_discovered-Dialed r h q = record {
      peers = r.peer_id ∷ [];
      made = ap dialed (dial_discovered-calls r h) ∙ dialed-snoc r.peer_id r.addresses h.calls;
      few = omega arith;
      all = (q, tt);
      same = dial_discovered-connections r h;
    }

    pub dial_each-Dialed :
        (count index : ℕ) (rs : List (Registration net)) (h : EventHandler C F P U net)
        → All (λ r. Q r.peer_id) rs
        → Dialed
            (h.connections.max_peers - (count + index))
            h
            (dial_each swarm node count index rs h)
    unfolding dial_each
    dial_each-Dialed count index [] h q = Dialed-refl _ h
    dial_each-Dialed count index (r ∷ rs) h (q, qs) =
        let free =
          not (net.eq_peer.beq r.peer_id swarm.local_peer_id)
          && ltb (count + index) h.connections.max_peers in
        let after = λ (i : EventHandler C F P U net). dial_each swarm node count (suc index) rs i in
        let made = dial_discovered swarm node r h in
        elim (Bool-cases free) [
          | inl y ↦
              let (other, room) = is_free _ _ _ y in
              let d = dial_discovered-Dialed r h (q, other) in
              subst (λ x. Dialed (h.connections.max_peers - (count + index)) h (after x))
                (sym (if_of_true free made h y))
                (Dialed-trans 1 _ _ h made (after made) d
                  (dial_each-Dialed count (suc index) rs made qs)
                  (omega (arith, ap (λ c. c.max_peers) d.same, room)))
          | inr z ↦
              subst (λ x. Dialed (h.connections.max_peers - (count + index)) h (after x))
                (sym (if_of_false free made h z))
                (Dialed-trans 0 _ _ h h (after h) (Dialed-refl 0 h)
                  (dial_each-Dialed count (suc index) rs h qs) (omega arith))
        ]

-- Rows that were selected satisfy the test, and what all rows satisfy.
All-select :
    {A : Type 0} (test : A → Bool) (P : A → Type 0) (xs : List A)
    → All P xs
    → All (λ x. P x × (test x ≡ true)) (select test xs)
unfolding select
All-select test P [] ps = tt
All-select test P (x ∷ xs) (p, ps) = elim (Bool-cases (test x)) [
  | inl y ↦ rw y ((p, y), All-select test P xs ps)
  | inr z ↦ rw z (All-select test P xs ps)
]

-- Every registration's peer is registered.
registered_self :
    {net : Net} (rs : List (Registration net))
    → All (λ r. exists (λ (q : Registration net). net.eq_peer.beq r.peer_id q.peer_id) rs ≡ true) rs
unfolding exists
registered_self [] = tt
registered_self {net} (r ∷ rs) = (
  ground (arith, (net.eq_peer.beq_iff r.peer_id r.peer_id).1 refl),
  All-imp _ _ rs (λ q h. ground arith) (registered_self rs),
)

not-true : (b : Bool) → not b ≡ true → b ≡ false
not-true true h = cc
not-true false h = refl

module _ {C F P U : Type 0} {net : Net} (swarm : Swarm net) (node : net.Peer)
    (rs : List (Registration net)) (cookie : net.Cookie) (h : EventHandler C F P U net) where
  -- one of the peers that are registered, which was not connected before
  abbrev pub IsNew : net.Peer → Type 0
  IsNew p =
      (exists (λ (r : Registration net). net.eq_peer.beq p r.peer_id) rs ≡ true)
      × (contains_key net.eq_peer p h.connections.peers ≡ false)

  new_registrations-IsNew : All (λ r. IsNew r.peer_id) (new_registrations swarm rs h)
  unfolding new_registrations
  new_registrations-IsNew =
      All-imp _ _ _ (λ r k. (k.0, not-true _ k.1))
        (All-select
          (λ (r : Registration net). not (contains_key net.eq_peer r.peer_id h.connections.peers))
          (λ r. exists (λ (q : Registration net). net.eq_peer.beq r.peer_id q.peer_id) rs ≡ true) rs
          (registered_self rs))

  -- The peers that a discovery dials are peers of the registrations it is given that are
  -- neither connected nor this node, and there are at most as many as may still be connected.
  -- The connections stay as they are.
  pub discovered-Dialed :
      Dialed swarm IsNew
        (h.connections.max_peers - connected_peers h)
        h
        (discovered swarm node rs cookie h)
  unfolding discovered new_registrations
  discovered-Dialed =
      let room = h.connections.max_peers - connected_peers h in
      let stored = with_cookie swarm node cookie h in
      let news = new_registrations swarm rs h in
      let after = dial_each swarm node (connected_peers h) 0 news stored in
      Dialed-if swarm IsNew room h (is_ours (swarm.namespace cookie)) _ h
        (Dialed-if swarm IsNew room h (leb h.connections.max_peers (connected_peers h)) stored _
          (Dialed-kept swarm IsNew room h h stored (Dialed-refl swarm IsNew room h) refl refl)
          (Dialed-kept swarm IsNew room h after (keep_discovery swarm node after)
            (Dialed-from swarm IsNew _ room h stored after
              (dial_each-Dialed swarm IsNew node (connected_peers h) 0 news stored
                new_registrations-IsNew)
              (omega arith) refl refl)
            refl refl))
        (Dialed-refl swarm IsNew room h)
