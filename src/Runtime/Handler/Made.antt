-- ===== src/Runtime/Handler/Made.antt =====
-- Calls that the event handler has made of the swarm.
use homestar.Prelude.{
  ◌≡◌, refl, List, [], ◌∷◌, ◌++◌, Bool, true, false, ◌⊎◌, inl, inr, if◌then◌else◌, Bool-cases,
  Option-cases, ℕ, String,
}
use homestar.Result.{Result, ok, err}
use homestar.Foreign.{Foreign}
use homestar.Runtime.Receipt.{Receipt, Failure}
use homestar.Runtime.Pubsub.{receipts_topic}
use homestar.Runtime.Info.{Info}
use homestar.Runtime.Info.Translate.{info_capsule}
use homestar.Runtime.Handler.{Net, Call, Swarm, Wire, EventHandler, Quorum, RequestResponseKey}
use homestar.Runtime.Handler.Publish.{put, put_workflow, publish_bytes, gossip_publish, gossip}

-- the call is one of those made
abbrev pub Among : {A : Type 0} → A → List A → Type 0
Among c [] = ⊥
Among c (d ∷ ds) = (d ≡ c) ⊎ Among c ds

module _ {A : Type 0} where
  pub Among-append_left : (c : A) (xs ys : List A) → Among c xs → Among c (xs ++ ys)
  Among-append_left c [] ys h = elim h [ ]
  Among-append_left c (x ∷ xs) ys (inl h) = inl h
  Among-append_left c (x ∷ xs) ys (inr h) = inr (Among-append_left c xs ys h)

  pub Among-snoc : (c : A) (xs : List A) → Among c (xs ++ c ∷ [])
  Among-snoc c [] = inl refl
  Among-snoc c (x ∷ xs) = inr (Among-snoc c xs)

module _ {C F P U : Type 0} {net : Net} (h : EventHandler C F P U net) where
  -- Nothing is changed but the calls of the swarm.
  abbrev pub OnlyCalls : EventHandler C F P U net → Type 0
  OnlyCalls h' = (cs : List (Call net)) × (h' ≡ record h { calls = cs })

  pub OnlyCalls-if :
      (b : Bool) (x y : EventHandler C F P U net)
      → OnlyCalls x
      → OnlyCalls y
      → OnlyCalls (if b then x else y)
  OnlyCalls-if true x y p q = p
  OnlyCalls-if false x y p q = q

  pub OnlyCalls-if_second :
      {R : Type 0} (b : Bool) (x y : R × EventHandler C F P U net)
      → OnlyCalls x.1
      → OnlyCalls y.1
      → OnlyCalls (if b then x else y).1
  OnlyCalls-if_second true x y p q = p
  OnlyCalls-if_second false x y p q = q

module _ {C F P U : Type 0} {net : Net} (swarm : Swarm net) (key value : List ℕ) (quorum : Quorum)
    (query_key : RequestResponseKey) (h : EventHandler C F P U net) where
  -- The record is put, whether the swarm accepts it or not.
  pub put-calls :
      (put swarm key value quorum query_key h).calls
      ≡ h.calls ++ Call.put_record key value quorum ∷ []
  unfolding put
  put-calls =
      elim (Bool-cases (swarm.accepted (h.calls ++ Call.put_record key value quorum ∷ []))) [
        | inl y ↦ rw y refl
        | inr z ↦ rw z refl
      ]

module _ {C F P U : Type 0} {net : Net} (e : Foreign C F P U) (wire : Wire C F net)
    (swarm : Swarm net) where
  -- What was called before the workflow's information is put, has been called after.
  pub put_workflow-kept :
      (c : Call net) (i : Info C U) (quorum : Quorum) (h : EventHandler C F P U net)
      → Among c h.calls
      → Among c (put_workflow e wire swarm i quorum h).calls
  unfolding put_workflow
  put_workflow-kept c i quorum h m = elim (Option-cases (e.encode (info_capsule e i))) [
    | inl z ↦ rw (z, put_workflow) m
    | inr (bytes, z) ↦
        rw (z, put_workflow, put-calls swarm (wire.cid_to_bytes i.cid) bytes quorum _ h)
          (Among-append_left c h.calls _ m)
  ]

  -- Gossip changes nothing but the calls of the swarm.
  publish_bytes-only :
      (topic : String) (h : EventHandler C F P U net) (msg : Result Failure (List ℕ))
      → OnlyCalls h (publish_bytes e wire swarm topic h msg).1
  unfolding publish_bytes
  publish_bytes-only topic h (err failure) = (h.calls, refl)
  publish_bytes-only topic h (ok b) =
      OnlyCalls-if_second h (swarm.mesh_peers h.calls topic) _ _
        (OnlyCalls-if_second h (swarm.accepted (h.calls ++ Call.publish topic b ∷ [])) _ _ (_, refl)
          (_, refl))
        (_, refl)

  pub gossip-only :
      (r : Receipt C F P) (h : EventHandler C F P U net) → OnlyCalls h (gossip e wire swarm r h)
  unfolding gossip gossip_publish
  gossip-only r h =
      OnlyCalls-if h h.pubsub_enabled _ _
        (OnlyCalls-if_second h swarm.gossipsub _ _ (publish_bytes-only receipts_topic h _)
          (_, refl))
        (_, refl)
