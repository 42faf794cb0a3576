-- ===== src/Runtime/Pubsub.antt =====
-- homestar-runtime/src/network/pubsub.rs and network/pubsub/message.rs: the messages that nodes gossip,
-- a payload under a header with a nonce. The codec's decoder is an argument, as is the conversion of
-- the payload.
pub mod Laws
use homestar.Prelude.{ℕ, String, Option, none, some, List, [], ◌∷◌}
use homestar.Result.{Result, ok, err, ok_or, map_err, ◌>>=◌}
use homestar.Ipld.{Ipld, map, get, from_list}
use homestar.Foreign.{Foreign}
use homestar.Core.Nonce.{Nonce, generate, nonce_to_ipld, nonce_of_ipld}
use homestar.Runtime.Receipt.{Failure, failed, any}

abbrev pub receipts_topic : String
receipts_topic = "receipts"

abbrev pub header_key : String
header_key = "header"

abbrev pub payload_key : String
payload_key = "payload"

abbrev pub nonce_key : String
nonce_key = "nonce"

pub record Header : Type 0 where
  pub nonce : Nonce

pub record Message (T : Type 0) : Type 0 where
  pub header : Header
  pub payload : T

-- `Message::new`, from the bytes of a new xid
unfoldable pub new : {T : Type 0} → List ℕ → T → Message T
new xid payload = record { header = record { nonce = generate xid }; payload = payload }

module _ {C F P U : Type 0} (e : Foreign C F P U) where
  -- `From<Header> for Ipld`
  unfoldable pub header_to_ipld : Header → Ipld C F
  unfolding from_list
  header_to_ipld h = map (from_list ((nonce_key, nonce_to_ipld h.nonce) ∷ []))

  -- `TryFrom<Ipld> for Header`
  unfoldable pub header_of_ipld : Ipld C F → Result Failure Header
  unfolding get
  header_of_ipld x = do
    m ← ok_or (e.from_map x) failed
    n ← ok_or (get nonce_key m) failed
    nonce ← map_err any (nonce_of_ipld n)
    ok (record { nonce = nonce })

  -- `TryFrom<Header> for Vec<u8>`
  unfoldable pub header_to_bytes : Header → Result Failure (List ℕ)
  header_to_bytes h = ok_or (e.encode (header_to_ipld h)) failed

  -- `TryFrom<Vec<u8>> for Header`
  unfoldable pub header_of_bytes : (List ℕ → Option (Ipld C F)) → List ℕ → Result Failure Header
  header_of_bytes decode bytes = do x ← ok_or (decode bytes) failed; header_of_ipld x

  module _ {T : Type 0} where
    -- `From<Message<T>> for Ipld`
    unfoldable pub message_to_ipld : (T → Ipld C F) → Message T → Ipld C F
    unfolding from_list
    message_to_ipld to m =
        map (from_list ((header_key, header_to_ipld m.header) ∷ (payload_key, to m.payload) ∷ []))

    -- `TryFrom<Ipld> for Message<T>`
    unfoldable pub message_of_ipld :
        (Ipld C F → Result Failure T) → Ipld C F → Result Failure (Message T)
    unfolding get
    message_of_ipld of x = do
      m ← ok_or (e.from_map x) failed
      h ← ok_or (get header_key m) failed
      header ← header_of_ipld h
      p ← ok_or (get payload_key m) failed
      payload ← of p
      ok (record { header = header; payload = payload })

    -- `TryFrom<Message<T>> for Vec<u8>`
    unfoldable pub message_to_bytes : (T → Ipld C F) → Message T → Result Failure (List ℕ)
    message_to_bytes to m = ok_or (e.encode (message_to_ipld to m)) failed

    -- `TryFrom<Vec<u8>> for Message<T>`
    unfoldable pub message_of_bytes :
        (List ℕ → Option (Ipld C F))
        → (Ipld C F → Result Failure T)
        → List ℕ
        → Result Failure (Message T)
    message_of_bytes decode of bytes = do
      x ← ok_or (decode bytes) failed
      map_err any (message_of_ipld of x)
