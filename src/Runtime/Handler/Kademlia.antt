-- ===== src/Runtime/Handler/Kademlia.antt =====
-- The results of queries in homestar-runtime/src/event_handler/swarm_event.rs, and
-- `PeerRecord::found_record` of swarm_event/record.rs. An answer goes to the sender that waits for the
-- query, which is removed.
use homestar.Prelude.{ℕ, Option, none, some, List, [], ◌∷◌, if◌then◌else◌}
use homestar.Prelude.Classes.{Eq}
use homestar.Result.{Result, ok, err, ok_or, ◌>>=◌}
use homestar.Foreign.{Foreign}
use homestar.Runtime.Receipt.{Failure, failed}
use homestar.Runtime.Record as Record
use homestar.Runtime.Record.{DecodedRecord, decode_capsule}
use homestar.Runtime.Resources as Index
use homestar.Runtime.Handler.{
  Net, Swarm, Wire, EventHandler, FoundEvent, ResponseEvent, found, RequestResponseKey, event,
  finish, respond,
}
use homestar.Runtime.Handler.{Event}
use homestar.Runtime.Handler.Calls.{call, send, forget_query}

-- `QueryResult`, as far as it is handled by more than a log
pub data QueryResult (net : Net) : Type 0 where
  found_providers : List net.Peer → QueryResult net
  get_providers_error : QueryResult net
  found_record : List ℕ → Option net.Peer → List ℕ → QueryResult net
  finished_with_no_additional_record : QueryResult net
  get_record_error : QueryResult net
  put_record_result : QueryResult net
  start_providing_result : QueryResult net
  other : QueryResult net

-- `providers.remove(local_peer_id)`
unfoldable pub without : {A : Type 0} → Eq A → A → List A → List A
without eq p [] = []
without eq p (q ∷ qs) = let rest = without eq p qs in if eq.beq p q then rest else q ∷ rest

module _ {C F P U : Type 0} {net : Net} where
  -- `if let Some(sender) = sender { sender.send_async(..) }`
  abbrev pub answer :
      Option net.Sender
      → ResponseEvent C F P U net
      → EventHandler C F P U net
      → EventHandler C F P U net
  answer none r h = h
  answer (some sender) r h = send (respond sender r) h

  -- `let Some((_, sender)) = query_senders.remove(&id) else { return }`, and the answer
  unfoldable pub answer_query :
      net.Query → ResponseEvent C F P U net → EventHandler C F P U net → EventHandler C F P U net
  answer_query id r h = elim (Index.get net.eq_query id h.query_senders) [
    | none ↦ h
    | some (_, sender) ↦ answer sender r (forget_query id h)
  ]

  -- the event that a decoded record becomes
  abbrev pub found_event : DecodedRecord C F P U net.Peer → FoundEvent C F P U net
  found_event (Record.receipt peer r) = FoundEvent.receipt peer r
  found_event (Record.workflow peer i) = FoundEvent.workflow peer i

  -- `match` on the decoded record and its error
  abbrev pub found_response :
      Result Failure (DecodedRecord C F P U net.Peer) → ResponseEvent C F P U net
  found_response (ok decoded_record) = found (ok (found_event decoded_record))
  found_response (err failure) = found (err failure)

  -- the event that the handler sends to itself, if a sender waits
  abbrev pub tell_providers :
      List net.Peer
      → RequestResponseKey × Option net.Sender
      → EventHandler C F P U net
      → EventHandler C F P U net
  tell_providers providers (key, none) h = h
  tell_providers providers (key, some sender) h =
      send (event (Event.providers (ok (providers, key, sender)))) h

  -- the arm of `GetProviders(Ok(FoundProviders))`, after the own peer is removed
  unfoldable pub providers_found :
      net.Query → List net.Peer → EventHandler C F P U net → EventHandler C F P U net
  providers_found id [] h = h
  providers_found id (p ∷ ps) h = elim (Index.get net.eq_query id h.query_senders) [
    | none ↦ h
    | some entry ↦ call (finish id) (tell_providers (p ∷ ps) entry (forget_query id h))
  ]

  -- the arm of `GetRecord(Err)`, whose answers are all errors
  unfoldable pub record_not_found : net.Query → EventHandler C F P U net → EventHandler C F P U net
  unfolding answer_query
  record_not_found id h = answer_query id (found (err failed)) h

module _ {C F P U : Type 0} {net : Net} (e : Foreign C F P U) (eq : Eq C)
    (wire : Wire C F net) where
  -- `PeerRecord::found_record`
  unfoldable pub found_record_of :
      List ℕ → Option net.Peer → List ℕ → Result Failure (DecodedRecord C F P U net.Peer)
  found_record_of key publisher value = do
    key_cid ← ok_or (wire.cid_try_from key) failed
    decode_capsule e eq wire.decode_error wire.decode key_cid publisher value

  -- the arms of `OutboundQueryProgressed`
  unfoldable pub query_progressed :
      Swarm net → net.Query → QueryResult net → EventHandler C F P U net → EventHandler C F P U net
  unfolding without providers_found answer_query found_record_of record_not_found
  query_progressed swarm id (found_providers providers) h =
      providers_found id (without net.eq_peer swarm.local_peer_id providers) h
  query_progressed swarm id get_providers_error h =
      answer_query id (ResponseEvent.providers (err failed)) h
  query_progressed swarm id (found_record key publisher value) h =
      answer_query id (found_response (found_record_of key publisher value)) h
  query_progressed swarm id finished_with_no_additional_record h = h
  query_progressed swarm id get_record_error h = record_not_found id h
  query_progressed swarm id put_record_result h = forget_query id h
  query_progressed swarm id start_providing_result h = forget_query id h
  query_progressed swarm id other h = h
