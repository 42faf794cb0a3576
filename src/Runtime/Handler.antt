-- ===== src/Runtime/Handler.antt =====
-- homestar-runtime/src/event_handler.rs: the state of the event handler, in the build without the
-- features `websocket-notify` and `ipfs`. libp2p is an argument: its types are `Net`, what it answers
-- is `Swarm`, as functions of the calls that the handler has made of it so far. The calls and the
-- messages to channels are kept in the order in which they are made.
pub mod Calls
pub mod Publish
pub mod Events
pub mod Kademlia
pub mod Requests
pub mod Peers
pub mod Cache
pub mod Swarming
pub mod Made
pub mod Found
pub mod Gossiped
pub mod Exchanged
pub mod Answered
pub mod Dials
pub mod Renewed
pub mod Kept
pub mod Undisturbed
pub mod Connected
use text.Mathlib.Text.{◌==◌}
use homestar.Prelude.{
  ℕ, String, Bool, true, false, Option, none, some, List, [], ◌∷◌, ◌++◌, eq_iff, ◌≡◌, if◌then◌else◌,
}
use homestar.Prelude.Classes.{Eq}
use homestar.Result.{Result}
use homestar.Ipld.{Ipld, Fields, map}
use homestar.Foreign.{Foreign}
use homestar.Runtime.Receipt.{Receipt, Failure, receipt_tag}
use homestar.Runtime.Info.{Info}
use homestar.Runtime.Info.Translate.{workflow_tag}
use homestar.Runtime.Store.{Db}

-- the types of libp2p and of the channels
pub record Net : Type 1 where
  pub Peer : Type 0
  pub Address : Type 0
  pub Endpoint : Type 0
  pub Query : Type 0
  pub Request : Type 0
  pub Channel : Type 0
  pub Cookie : Type 0
  pub Sender : Type 0
  pub eq_peer : Eq Peer
  pub eq_query : Eq Query
  pub eq_request : Eq Request

pub data CapsuleTag : Type 0 where
  receipt workflow : CapsuleTag

-- `CapsuleTag::tag`
abbrev pub tag : CapsuleTag → String
tag receipt = receipt_tag
tag workflow = workflow_tag

-- `CapsuleTag::capsule_type`
abbrev pub capsule_type : String → Option CapsuleTag
capsule_type s =
    if s == receipt_tag then some receipt else if s == workflow_tag then some workflow else none

pub record RequestResponseKey : Type 0 where
  pub cid : String
  pub capsule_tag : CapsuleTag

-- `libp2p::kad::Quorum`, as far as it is used
pub data Quorum : Type 0 where
  one : Quorum
  n : ℕ → Quorum

-- the calls of the swarm that change it
pub data Call (net : Net) : Type 0 where
  get_record : List ℕ → Call net
  put_record : List ℕ → List ℕ → Quorum → Call net
  remove_record : List ℕ → Call net
  get_providers : List ℕ → Call net
  start_providing : List ℕ → Call net
  stop_providing : List ℕ → Call net
  finish : net.Query → Call net
  send_request : net.Peer → RequestResponseKey → Call net
  send_response : net.Channel → List ℕ → Call net
  publish : String → List ℕ → Call net
  register : String → net.Peer → ℕ → Call net
  discover : String → Option net.Cookie → net.Peer → Call net
  dial : net.Peer → List net.Address → Call net
  add_address : net.Peer → net.Address → Call net
  remove_address : net.Peer → net.Address → Call net
  remove_peer : net.Peer → Call net
  add_external_address : net.Address → Call net

-- What the swarm answers after the calls so far: the identifier of a new query or request, whether
-- the last call was accepted, and what it knows.
pub record Swarm (net : Net) : Type 0 where
  pub query_id : List (Call net) → net.Query
  pub request_id : List (Call net) → net.Request
  pub accepted : List (Call net) → Bool
  pub mesh_peers : List (Call net) → String → Bool
  pub external_addresses : List (Call net) → ℕ
  pub listeners : List (Call net) → List net.Address
  pub has_node : List (Call net) → net.Peer → Bool
  pub local_peer_id : net.Peer
  pub gossipsub : Bool
  pub rendezvous_client : Bool
  pub mdns : Bool
  -- `ConnectedPoint::get_remote_address`, the peer that ends an address, whether an address has a
  -- private IPv4 part, the namespace of a cookie, and the text of a peer
  pub get_remote_address : net.Endpoint → net.Address
  pub peer_id : net.Address → Option net.Peer
  pub is_private : net.Address → Bool
  pub namespace : net.Cookie → Option String
  pub peer_to_string : net.Peer → String

pub data FoundEvent (C F P U : Type 0) (net : Net) : Type 0 where
  receipt : Option net.Peer → Receipt C F P → FoundEvent C F P U net
  workflow : Option net.Peer → Info C U → FoundEvent C F P U net

pub data ResponseEvent (C F P U : Type 0) (net : Net) : Type 0 where
  found : Result Failure (FoundEvent C F P U net) → ResponseEvent C F P U net
  providers : Result Failure (List net.Peer) → ResponseEvent C F P U net

pub record PeerDiscoveryInfo (net : Net) : Type 0 where
  pub rendezvous_point : net.Peer

-- `DispatchEvent`, `CacheData` and `CacheValue` of event_handler/cache.rs
pub data DispatchEvent : Type 0 where
  register_peer discover_peers : DispatchEvent

pub data CacheData (net : Net) : Type 0 where
  peer : net.Peer → CacheData net
  on_expiration : DispatchEvent → CacheData net

pub record CacheValue (net : Net) : Type 0 where
  pub expiration : ℕ
  pub entries : List (String × CacheData net)

pub record Rendezvous (net : Net) : Type 0 where
  pub registration_ttl : ℕ
  pub discovery_interval : ℕ
  pub discovered_peers : List (net.Peer × PeerDiscoveryInfo net)
  pub cookies : List (net.Peer × net.Cookie)

pub record Connections (net : Net) : Type 0 where
  pub peers : List (net.Peer × net.Endpoint)
  pub max_peers : ℕ

pub record Captured (C U : Type 0) : Type 0 where
  pub receipt : C
  pub workflow : Info C U

pub record QueryRecord (C : Type 0) (net : Net) : Type 0 where
  pub cid : C
  pub capsule : CapsuleTag
  pub sender : Option net.Sender

pub record PeerRequest (net : Net) : Type 0 where
  pub peer : net.Peer
  pub request : RequestResponseKey
  pub sender : net.Sender

-- `Event`, without the variants of the feature `websocket-notify`
pub data Event (C U : Type 0) (net : Net) : Type 0 where
  captured_receipt : Captured C U → Event C U net
  shutdown : net.Sender → Event C U net
  find_record : QueryRecord C net → Event C U net
  remove_record : QueryRecord C net → Event C U net
  outbound_request : PeerRequest net → Event C U net
  get_providers : QueryRecord C net → Event C U net
  provide_record : C → Option net.Sender → CapsuleTag → Event C U net
  providers : Result Failure (List net.Peer × RequestResponseKey × net.Sender) → Event C U net
  register_peer : net.Peer → Event C U net
  discover_peers : net.Peer → Event C U net
  get_node_info : net.Sender → Event C U net

-- a message to a channel: to a waiting sender, or to the handler's own queue
pub data Sent (C F P U : Type 0) (net : Net) : Type 0 where
  respond : net.Sender → ResponseEvent C F P U net → Sent C F P U net
  done : net.Sender → Sent C F P U net
  node_info : net.Sender → List net.Address → List (net.Peer × net.Address) → Sent C F P U net
  event : Event C U net → Sent C F P U net

pub record EventHandler (C F P U : Type 0) (net : Net) : Type 0 where
  pub receipt_quorum : ℕ
  pub workflow_quorum : ℕ
  pub db : Db C F P U
  pub calls : List (Call net)
  pub cache : List (String × CacheValue net)
  pub sent : List (Sent C F P U net)
  pub query_senders : List (net.Query × (RequestResponseKey × Option net.Sender))
  pub connections : Connections net
  pub request_response_senders : List (net.Request × (RequestResponseKey × net.Sender))
  pub rendezvous : Rendezvous net
  pub pubsub_enabled : Bool
  pub node_addresses : List net.Address
  pub announce_addresses : List net.Address
  pub external_address_limit : ℕ

-- event_handler/error.rs
pub data RequestResponseError : Type 0 where
  timeout invalid_capsule unsupported : RequestResponseKey → RequestResponseError

-- The encodings of other crates: of CIDs as bytes, the decoder of DAG-CBOR, the coding of errors;
-- the bytes of a new xid, and whether the pool has a connection to the database.
pub record Wire (C F : Type 0) (net : Net) : Type 0 where
  pub cid_to_bytes : C → List ℕ
  pub cid_try_from : List ℕ → Option C
  pub decode : List ℕ → Option (Ipld C F)
  pub decode_error : List ℕ → Option String
  pub encode_error : RequestResponseError → Option (List ℕ)
  pub xid : List (Call net) → List ℕ
  pub conn : List (Call net) → Bool

-- What the crates state of these: a CID is read back from its bytes, DAG-CBOR decodes what it has
-- encoded, and no map is read as the pair that `RequestResponseError::decode` asks for.
pub record IsWire {C F P U : Type 0} {net : Net} (e : Foreign C F P U) (wire : Wire C F net)
    : Type 0 where
  pub cid_bytes : (c : C) → wire.cid_try_from (wire.cid_to_bytes c) ≡ some c
  pub decodes : (x : Ipld C F) (b : List ℕ) → e.encode x ≡ some b → wire.decode b ≡ some x
  pub no_error :
      (m : Fields C F) (b : List ℕ) → e.encode (map m) ≡ some b → wire.decode_error b ≡ none

abbrev pub same_text : Eq String
same_text = record { beq = λ a b. a == b; beq_iff = λ a b. eq_iff a b }
