-- ===== src/Runtime/Handler/Calls.antt =====
-- Small steps of the event handler: a call of the swarm, a message to a channel, and the maps.
use homestar.Prelude.{
  String, Option, none, List, [], ◌∷◌, ◌++◌, if◌then◌else◌, ◌≡◌, refl, ◌≢◌, Bool-cases, inl, inr,
  arith,
}
use homestar.Prelude.Classes.{Eq}
use homestar.Runtime.Resources as Index
use homestar.Runtime.Handler.{
  Net, Call, EventHandler, Sent, Swarm, RequestResponseKey, CacheValue, same_text, register,
}

-- `HashMap::remove`
unfoldable pub remove {ℓ} : {K : Type 0} {V : Type ℓ} → Eq K → K → List (K × V) → List (K × V)
remove eq k [] = []
remove eq k ((j, v) ∷ m) = let rest = remove eq k m in if eq.beq k j then rest else (j, v) ∷ rest

abbrev pub rendezvous_namespace : String
rendezvous_namespace = "homestar"

module _ {C F P U : Type 0} {net : Net} where
  abbrev pub call : Call net → EventHandler C F P U net → EventHandler C F P U net
  call c h = record h { calls = h.calls ++ c ∷ [] }

  abbrev pub send : Sent C F P U net → EventHandler C F P U net → EventHandler C F P U net
  send m h = record h { sent = h.sent ++ m ∷ [] }

  -- `query_senders.insert(id, (key, sender))`, for the query of the last call
  abbrev pub await_query :
      Swarm net
      → RequestResponseKey
      → Option net.Sender
      → EventHandler C F P U net
      → EventHandler C F P U net
  await_query swarm key sender h = record h {
    query_senders =
        Index.insert net.eq_query (swarm.query_id h.calls) (key, sender) h.query_senders;
  }

  -- `query_senders.remove(&id)`: the entry is looked up, and is gone afterwards
  abbrev pub forget_query : net.Query → EventHandler C F P U net → EventHandler C F P U net
  forget_query id h = record h { query_senders = remove net.eq_query id h.query_senders }

  -- `cache.insert(key, value)`
  abbrev pub keep : String → CacheValue net → EventHandler C F P U net → EventHandler C F P U net
  keep key value h = record h { cache = Index.insert same_text key value h.cache }

  -- `rendezvous_client.register(..)`, whose error is only logged
  abbrev pub register_with : net.Peer → EventHandler C F P U net → EventHandler C F P U net
  register_with peer h = call (register rendezvous_namespace peer h.rendezvous.registration_ttl) h

module _ {K V : Type 0} (eq : Eq K) where
  -- What was removed is not found.
  pub get-remove : (k : K) (m : List (K × V)) → Index.get eq k (remove eq k m) ≡ none
  unfolding remove Index.get
  get-remove k [] = refl
  get-remove k ((j, v) ∷ m) = elim (Bool-cases (eq.beq k j)) [
    | inl e ↦ rw e (get-remove k m)
    | inr e ↦ rw (e, Index.get, e) (get-remove k m)
  ]

  pub get-remove_ne :
      (k j : K) (m : List (K × V)) → k ≢ j → Index.get eq j (remove eq k m) ≡ Index.get eq j m
  unfolding remove Index.get
  get-remove_ne k j [] h = refl
  get-remove_ne k j ((i, v) ∷ m) h =
      ground (arith, get-remove_ne k j m h, eq.beq_iff k i, eq.beq_iff j i)
