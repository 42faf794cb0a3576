-- ===== src/Tests/Network.antt =====
-- Two nodes that share a receipt and a workflow's information, and a node that meets peers.
use homestar.Prelude.{
  ℕ, ◌≡◌, refl, Bool, true, false, some, none, List, [], ◌∷◌, replicate, String, arith,
}
use homestar.Prelude.Int.{pos}
use homestar.Result.{ok, err}
use homestar.Ipld.{null, string}
use homestar.Sample.Network.{
  Value, foreign, foreign-IsForeign, wire, wire-IsWire, swarm, net, same_cid, same_number, encode,
  Value-discrete,
}
use homestar.Core.Pointer.{new}
use homestar.Core.InstructionResult.{success, result_to_ipld}
use homestar.Core.Proof.{prf_to_ipld}
use homestar.Core.Nonce.{nonce_to_ipld}
use homestar.Runtime.Resources.Translate.{indexed_to_ipld, indexed_of_ipld}
use homestar.Core.Receipt as Invocation
use homestar.Core.Instruction.{to_cid}
use homestar.Runtime.Receipt.{
  Receipt, invocation_version, to_invocation, invocation_capsule, receipt_to_ipld, try_with,
}
use homestar.Runtime.Info as Info
use homestar.Runtime.Info.Translate.{info_capsule}
use homestar.Runtime.Pubsub as Pubsub
use homestar.Runtime.Pubsub.{message_to_ipld}
use homestar.Runtime.Store.{find_receipt_by_cid, get_workflow_info}
use homestar.Prelude.Table.{exists, first, select}
use homestar.Runtime.Resources as Index
use homestar.Runtime.Pubsub.{receipts_topic, message_to_bytes, header_to_ipld}
use homestar.Runtime.Handler.{
  EventHandler, Event, Captured, CapsuleTag, FoundEvent, found, respond, publish, send_request,
  send_response,
}
use homestar.Runtime.Handler.Made.{Among}
use homestar.Runtime.Handler.Events.{handle_event, request_outbound}
use homestar.Runtime.Handler.Kademlia.{query_progressed, found_record}
use homestar.Runtime.Handler.Requests.{message_received, request_received, response_received}
use homestar.Runtime.Handler.Exchanged.{exchanged, requested}
use homestar.Runtime.Handler.Gossiped.{captured-gossiped}
use homestar.Runtime.Handler.Found.{captured-found, IsShared, put_receipt}
use homestar.Runtime.Handler.Publish.{capsule_bytes}

abbrev pub receipt : Receipt Bool ℕ String
receipt = record {
  cid = new true;
  ran = new false;
  instruction = new false;
  out = success (string "done");
  meta = null;
  issuer = none;
  prf = record { inner = [] };
  version = invocation_version;
}

abbrev info : Info.Info Bool String
info = record {
  cid = true;
  name = none;
  num_tasks = 2;
  progress = [];
  progress_count = 0;
  resources = record { map = [] };
}

abbrev pub stored : Info.Stored Bool String
stored = record {
  cid = new true;
  name = none;
  num_tasks = pos 2;
  resources = record { map = [] };
  created_at = 0;
  completed_at = none;
}

-- the values that the two nodes encode
abbrev unread : List Value
unread = []

abbrev capsule : Value
unfolding invocation_capsule Invocation.receipt_to_ipld to_invocation
capsule = elim (invocation_capsule (foreign unread) (to_invocation receipt)) [
  | ok x ↦ x
  | err _ ↦ null
]

abbrev book : List Value
unfolding message_to_ipld receipt_to_ipld Pubsub.new info_capsule Invocation.receipt_to_ipld
    to_invocation
book =
    capsule
    ∷ Invocation.receipt_to_ipld (foreign unread) (to_invocation receipt)
    ∷ message_to_ipld (foreign unread) (receipt_to_ipld (foreign unread))
        (Pubsub.new (replicate 12 0) receipt)
    ∷ info_capsule (foreign unread) info
    ∷ []

abbrev pub Node : Type 0
Node = EventHandler Bool ℕ String String net

abbrev pub node : Node
node = record {
  receipt_quorum = 1;
  workflow_quorum = 1;
  db = record { workflows = stored ∷ []; receipts = receipt ∷ []; workflows_receipts = [] };
  calls = [];
  cache = [];
  sent = [];
  query_senders = (7, (record { cid = "bafytwo"; capsule_tag = CapsuleTag.receipt }, some 3)) ∷ [];
  connections = record { peers = ("peer", "addr") ∷ []; max_peers = 2 };
  request_response_senders = [];
  rendezvous = record {
    registration_ttl = 60;
    discovery_interval = 30;
    discovered_peers = [];
    cookies = [];
  };
  pubsub_enabled = true;
  node_addresses = [];
  announce_addresses = [];
  external_address_limit = 1;
}

abbrev captured : Captured Bool String
captured = record { receipt = true; workflow = info }

is_encoded : capsule_bytes (foreign book) (to_invocation receipt) ≡ ok (0 ∷ [])
unfolding capsule_bytes encode Value-discrete Invocation.receipt_to_ipld to_invocation
    invocation_capsule book result_to_ipld prf_to_ipld
is_encoded = refl

is_shared :
    IsShared (foreign book) same_cid (foreign-IsForeign book) (wire book) (wire-IsWire book) receipt
unfolding try_with to_cid encode Value-discrete Invocation.receipt_to_ipld to_invocation book
    capsule result_to_ipld prf_to_ipld
is_shared = record { made = refl; issuer = refl }

is_stored : find_receipt_by_cid same_cid captured.receipt node.db ≡ ok receipt
unfolding find_receipt_by_cid first
is_stored = refl

is_message :
    message_to_bytes
      (foreign book)
      (receipt_to_ipld (foreign book))
      (Pubsub.new (replicate 12 0) receipt)
    ≡ ok (2 ∷ [])
unfolding message_to_bytes encode Value-discrete message_to_ipld receipt_to_ipld Pubsub.new book
    capsule header_to_ipld nonce_to_ipld result_to_ipld prf_to_ipld
is_message = refl

captured-found_example :
    Among
      (put_receipt
        (foreign book)
        same_cid
        (foreign-IsForeign book)
        (wire book)
        (wire-IsWire book)
        swarm
        captured
        receipt
        (0 ∷ [])
        node)
      (handle_event
        (foreign book)
        (wire book)
        swarm
        same_cid
        (Event.captured_receipt captured)
        node).calls
    × ((query_progressed
          (foreign book)
          same_cid
          (wire book)
          swarm
          7
          (found_record (2 ∷ []) (some "peer") (0 ∷ []))
          node).sent
        ≡ respond 3 (found (ok (FoundEvent.receipt (some "peer") receipt))) ∷ [])
captured-found_example =
    captured-found (foreign book) same_cid (foreign-IsForeign book) (wire book) (wire-IsWire book)
      swarm captured receipt (0 ∷ []) node refl is_stored (omega arith) is_shared is_encoded node 7
      (record { cid = "bafytwo"; capsule_tag = CapsuleTag.receipt }) 3 (some "peer")
      (unfold Index.get in refl)

-- a node that has received nothing yet
abbrev fresh : Node
fresh = record node { db = record node.db { receipts = [] } }

captured-gossiped_example :
    Among
      (publish receipts_topic (2 ∷ []))
      (handle_event
        (foreign book)
        (wire book)
        swarm
        same_cid
        (Event.captured_receipt captured)
        node).calls
    × (find_receipt_by_cid same_cid true
          (message_received (foreign book) same_cid (wire book) (2 ∷ []) fresh).db
        ≡ ok receipt)
captured-gossiped_example =
    captured-gossiped (foreign book) same_cid (foreign-IsForeign book) (wire book)
      (wire-IsWire book) swarm receipt (2 ∷ []) captured node refl is_stored (omega arith) refl refl
      refl refl is_message refl fresh refl (unfold exists in refl)

abbrev server : Node
server = record node { calls = [] }

info_bytes : (foreign book).encode (info_capsule (foreign book) info) ≡ some (3 ∷ [])
unfolding encode Value-discrete info_capsule book capsule indexed_to_ipld
info_bytes = refl

is_known : get_workflow_info same_cid true server.db ≡ ok (none, info)
unfolding get_workflow_info first Info.new select
is_known = refl

are_reread :
    indexed_of_ipld (foreign book) same_cid (indexed_to_ipld (foreign book) info.resources)
    ≡ ok info.resources
unfolding indexed_of_ipld indexed_to_ipld
are_reread = refl

exchanged_example :
    let asked =
      request_outbound swarm
        (record {
          peer = "peer";
          request =
              requested
                (foreign book)
                same_cid
                (foreign-IsForeign book)
                (wire book)
                (wire-IsWire book)
                info
                info.resources
                (3 ∷ [])
                swarm
                true
                none;
          sender = 5;
        })
        node in
    let id = swarm.request_id asked.calls in
    let answered = response_received (foreign book) same_cid (wire book) id "peer" (3 ∷ []) asked in
    (asked.calls
      ≡ send_request "peer" (record { cid = "bafyone"; capsule_tag = CapsuleTag.workflow }) ∷ [])
    × ((request_received
          (foreign book)
          same_cid
          (wire book)
          6
          none
          9
          (record { cid = "bafyone"; capsule_tag = CapsuleTag.workflow })
          server).calls
        ≡ send_response 9 (3 ∷ []) ∷ [])
    × (answered.sent ≡ respond 5 (found (ok (FoundEvent.workflow (some "peer") info))) ∷ [])
    × (Index.get same_number id answered.request_response_senders ≡ none)
exchanged_example =
    exchanged (foreign book) same_cid (foreign-IsForeign book) (wire book) (wire-IsWire book) info
      info.resources (3 ∷ []) swarm true none 5 "peer" node 6 none 9 server refl is_known
      (omega arith) (omega arith) are_reread info_bytes
