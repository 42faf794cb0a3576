-- ===== src/Runtime/Handler/Answered.antt =====
-- How often a query is answered.
use homestar.Prelude.{
  ◌≡◌, List, [], ◌∷◌, ◌+◌, ◌≤◌, Option, none, some, ℕ, length, length-append, inl, inr,
  Option-cases, arith,
}
use homestar.Prelude.Classes.{Eq}
use homestar.Result.{ok}
use homestar.Foreign.{Foreign}
use homestar.Runtime.Resources as Index
use homestar.Runtime.Handler.{
  Net, Swarm, Wire, EventHandler, ResponseEvent, RequestResponseKey, Sent, Event, event,
}
use homestar.Runtime.Handler.Calls.{get-remove, forget_query}
use homestar.Runtime.Handler.Kademlia.{
  QueryResult, found_providers, get_providers_error, found_record,
  finished_with_no_additional_record, get_record_error, put_record_result, start_providing_result,
  other, query_progressed, answer_query, answer, providers_found, record_not_found, tell_providers,
}

-- how many wait for a query: one, if it has an entry, and the entry has a sender
abbrev pub waiting : {K V : Type 0} → Option (K × Option V) → ℕ
waiting none = 0
waiting (some (key, none)) = 0
waiting (some (key, some sender)) = 1

module _ {C F P U : Type 0} {net : Net} (id : net.Query) where
  -- what was sent, and what may still be sent for the query
  abbrev pub due : EventHandler C F P U net → ℕ
  due h = length h.sent + waiting (Index.get net.eq_query id h.query_senders)

  forget_query-due : (h : EventHandler C F P U net) → due (forget_query id h) ≡ length h.sent
  forget_query-due h = rw (get-remove net.eq_query id h.query_senders) (omega arith)

  answer-due :
      (sender : Option net.Sender) (r : ResponseEvent C F P U net) (h : EventHandler C F P U net)
      (key : RequestResponseKey)
      → due (answer sender r (forget_query id h)) ≤ length h.sent + waiting (some (key, sender))
  answer-due none r h key = omega (arith, forget_query-due h)
  answer-due (some s) r h key =
      rw (get-remove net.eq_query id h.query_senders)
        (omega (arith, length-append h.sent (Sent.respond s r ∷ [])))

  answer_query-due :
      (r : ResponseEvent C F P U net) (h : EventHandler C F P U net)
      → due (answer_query id r h) ≤ due h
  unfolding answer_query
  answer_query-due r h = elim (Option-cases (Index.get net.eq_query id h.query_senders)) [
    | inl z ↦ rw (z, answer_query) (rw z (omega arith))
    | inr ((key, sender), z) ↦ rw (z, answer_query) (answer-due sender r h key)
  ]

  tell_providers-due :
      (providers : List net.Peer) (entry : RequestResponseKey × Option net.Sender)
      (h : EventHandler C F P U net)
      → due (tell_providers providers entry (forget_query id h))
        ≤ length h.sent + waiting (some entry)
  tell_providers-due providers (key, none) h = omega (arith, forget_query-due h)
  tell_providers-due providers (key, some s) h =
      rw (get-remove net.eq_query id h.query_senders) (
        omega (arith, length-append h.sent (event (Event.providers (ok (providers, key, s))) ∷ [])))

  providers_found-due :
      (providers : List net.Peer) (h : EventHandler C F P U net)
      → due (providers_found id providers h) ≤ due h
  unfolding providers_found
  providers_found-due [] h = omega arith
  providers_found-due (p ∷ ps) h = elim (Option-cases (Index.get net.eq_query id h.query_senders)) [
    | inl z ↦ rw (z, providers_found) (rw z (omega arith))
    | inr (entry, z) ↦ rw (z, providers_found) (tell_providers-due (p ∷ ps) entry h)
  ]

module _ {C F P U : Type 0} {net : Net} (e : Foreign C F P U) (eq : Eq C) (wire : Wire C F net)
    (swarm : Swarm net) (id : net.Query) where
  query_progressed-due :
      (r : QueryResult net) (h : EventHandler C F P U net)
      → due id (query_progressed e eq wire swarm id r h) ≤ due id h
  unfolding query_progressed record_not_found
  query_progressed-due (found_providers providers) h = providers_found-due id _ h
  query_progressed-due get_providers_error h = answer_query-due id _ h
  query_progressed-due (found_record key publisher value) h = answer_query-due id _ h
  query_progressed-due finished_with_no_additional_record h = omega arith
  query_progressed-due get_record_error h = answer_query-due id _ h
  query_progressed-due put_record_result h = omega (arith, forget_query-due id h)
  query_progressed-due start_providing_result h = omega (arith, forget_query-due id h)
  query_progressed-due other h = omega arith

  -- the results of one query, as they come
  abbrev pub progress : List (QueryResult net) → EventHandler C F P U net → EventHandler C F P U net
  progress [] h = h
  progress (r ∷ rs) h = progress rs (query_progressed e eq wire swarm id r h)

  -- However many results of one query come in, and in whatever order, the handler sends one
  -- message for them at most, and none unless the query has an entry with a sender that waits.
  pub progress-IsAnsweredOnce :
      (rs : List (QueryResult net)) (h : EventHandler C F P U net)
      → length (progress rs h).sent
        ≤ length h.sent + waiting (Index.get net.eq_query id h.query_senders)
  progress-IsAnsweredOnce [] h = omega arith
  progress-IsAnsweredOnce (r ∷ rs) h = omega (
    arith,
    progress-IsAnsweredOnce rs (query_progressed e eq wire swarm id r h),
    query_progressed-due r h,
  )
