-- ===== src/Runtime/Handler/Exchanged.antt =====
-- A workflow's information that one node asks another for.
use homestar.Prelude.{◌≡◌, refl, List, [], ◌∷◌, ◌++◌, ◌<◌, ◌^◌, Option, none, some, true, ℕ, String}
use homestar.Prelude.Classes.{Eq}
use homestar.Result.{ok}
use homestar.Foreign.{Foreign, IsForeign}
use homestar.Runtime.Resources as Index
use homestar.Runtime.Resources.{IndexedResources}
use homestar.Runtime.Resources.Translate.{indexed_to_ipld, indexed_of_ipld}
use homestar.Runtime.Resources.Table.{get-insert_self}
use homestar.Runtime.Info.{Info}
use homestar.Runtime.Info.Translate.{info_capsule}
use homestar.Runtime.Store.{get_workflow_info}
use homestar.Runtime.Retrieve.{retrieve}
use homestar.Runtime.Record.Shared.{decode_capsule-info_capsule}
use homestar.Runtime.Handler.{
  Net, Swarm, Wire, IsWire, EventHandler, RequestResponseKey, CapsuleTag, FoundEvent, found,
  respond, send_response, send_request,
}
use homestar.Runtime.Handler.Calls.{send, get-remove}
use homestar.Runtime.Handler.Events.{key_of, request_outbound}
use homestar.Runtime.Handler.Requests.{
  request_received, response_received, respond_to, response_of, send_info, ask_provider,
}

module _ {C F P U : Type 0} {net : Net} (e : Foreign C F P U) (eq : Eq C) (law : IsForeign e)
    (wire : Wire C F net) (wire_law : IsWire e wire) (i : Info C U)
    (resources : IndexedResources C U) (bytes : List ℕ) where
  module _ (swarm : Swarm net) (cid : C) (name : Option String) where
    -- the key of a request for the workflow's information
    abbrev pub requested : RequestResponseKey
    requested = key_of e wire swarm cid CapsuleTag.workflow

    request_received-sends :
        (tx : net.Sender) (provided : Option (Info C U)) (channel : net.Channel)
        (h : EventHandler C F P U net)
        → wire.conn h.calls ≡ true
        → get_workflow_info eq cid h.db ≡ ok (name, i)
        → e.encode (info_capsule e i) ≡ some bytes
        → (request_received e eq wire tx provided channel requested h).calls
          ≡ h.calls ++ send_response channel bytes ∷ []
    unfolding request_received send_info retrieve
    request_received-sends tx provided channel h conn known encoded =
        rw (law.cid_text cid, request_received, conn, known, send_info, encoded)
          (rw (known, ask_provider) refl)

    respond_to-answers :
        (sender : net.Sender) (peer : net.Peer) (h : EventHandler C F P U net)
        → i.num_tasks < 2 ^ 32
        → i.progress_count < 2 ^ 32
        → indexed_of_ipld e eq (indexed_to_ipld e i.resources) ≡ ok resources
        → e.encode (info_capsule e i) ≡ some bytes
        → respond_to e eq wire (requested, sender) peer bytes h
          ≡ send
              (respond sender
                (found (ok (FoundEvent.workflow (some peer) (record i { resources = resources })))))
              h
    unfolding respond_to response_of info_capsule
    respond_to-answers sender peer h n p res encoded =
        rw
          (
            law.cid_text cid,
            respond_to,
            decode_capsule-info_capsule e eq law wire.decode_error wire.decode i resources cid
                (some peer) bytes n p res (wire_law.no_error _ bytes encoded)
                (wire_law.decodes _ bytes encoded),
          )
          refl

    -- A node asks a peer for the information of a workflow. If the peer has a connection to its
    -- database, where the information is, and encodes it, it sends the bytes over the request's
    -- channel. When they come back to the first node, the sender that waits for the request is
    -- answered with the information, its resources as they are read back, and the request is
    -- forgotten.
    pub exchanged :
        (sender : net.Sender) (peer : net.Peer) (h : EventHandler C F P U net) (tx : net.Sender)
        (provided : Option (Info C U)) (channel : net.Channel) (h' : EventHandler C F P U net)
        → wire.conn h'.calls ≡ true
        → get_workflow_info eq cid h'.db ≡ ok (name, i)
        → i.num_tasks < 2 ^ 32
        → i.progress_count < 2 ^ 32
        → indexed_of_ipld e eq (indexed_to_ipld e i.resources) ≡ ok resources
        → e.encode (info_capsule e i) ≡ some bytes
        → let asked =
            request_outbound swarm
              (record { peer = peer; request = requested; sender = sender })
              h in
          let id = swarm.request_id asked.calls in
          let answered = response_received e eq wire id peer bytes asked in
          (asked.calls ≡ h.calls ++ send_request peer requested ∷ [])
          × ((request_received e eq wire tx provided channel requested h').calls
              ≡ h'.calls ++ send_response channel bytes ∷ [])
          × (answered.sent
              ≡ h.sent
                ++ respond sender (
                    found
                      (ok (FoundEvent.workflow (some peer) (record i { resources = resources }))))
                  ∷ [])
          × (Index.get net.eq_request id answered.request_response_senders ≡ none)
    unfolding request_outbound response_received
    exchanged sender peer h tx provided channel h' conn known n p res encoded =
        let waits =
          get-insert_self net.eq_request
            (swarm.request_id (h.calls ++ send_request peer requested ∷ [])) (requested, sender)
            h.request_response_senders in
        (
          refl,
          request_received-sends tx provided channel h' conn known encoded,
          rw (waits, response_received, respond_to-answers sender peer _ n p res encoded) refl,
          rw (waits, response_received, respond_to-answers sender peer _ n p res encoded)
              (get-remove net.eq_request _ _),
        )
