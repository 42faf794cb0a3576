-- ===== src/Runtime/Pubsub/Laws.antt =====
-- A gossiped message is read back.
use homestar.Prelude.{ℕ, ◌≡◌, refl, Option, some, List}
use homestar.Result.{Result, ok, ok_or-eq-ok}
use homestar.Ipld.{Ipld, get}
use homestar.Foreign.{Foreign, IsForeign}
use homestar.Core.Nonce.{IsSized, nonce_of_ipld-to_ipld}
use homestar.Runtime.Receipt.{Failure, failed}
use homestar.Runtime.Pubsub.{
  Header, Message, message_to_ipld, message_of_ipld, message_to_bytes, message_of_bytes,
  header_to_ipld, header_of_ipld,
}

pub header_of_ipld-to_ipld :
    {C F P U : Type 0} (e : Foreign C F P U) (law : IsForeign e) (h : Header)
    → IsSized h.nonce
    → header_of_ipld e (header_to_ipld e h) ≡ ok h
unfolding header_to_ipld header_of_ipld get
header_of_ipld-to_ipld {C} {F} e law h s =
    rw (law.serde.map_some, nonce_of_ipld-to_ipld C F h.nonce s) refl

module _ {C F P U T : Type 0} (e : Foreign C F P U) (law : IsForeign e) (to : T → Ipld C F)
    (of : Ipld C F → Result Failure T) where
  message_of_ipld-to_ipld :
      (m : Message T) (p : T)
      → IsSized m.header.nonce
      → of (to m.payload) ≡ ok p
      → message_of_ipld e of (message_to_ipld e to m) ≡ ok (record m { payload = p })
  unfolding message_of_ipld message_to_ipld get
  message_of_ipld-to_ipld m p s h =
      rw (law.serde.map_some, header_of_ipld-to_ipld e law m.header s, h) refl

  -- Where the decoder reads what the codec has written and the nonce has its array's size, the bytes
  -- of a message are read as the message, with the payload that its own Ipld is read as.
  pub message_of_bytes-to_bytes :
      (decode : List ℕ → Option (Ipld C F))
      → ((x : Ipld C F) (b : List ℕ) → e.encode x ≡ some b → decode b ≡ some x)
      → (m : Message T) (p : T) (bytes : List ℕ) → IsSized m.header.nonce
      → of (to m.payload) ≡ ok p
      → message_to_bytes e to m ≡ ok bytes
      → message_of_bytes e decode of bytes ≡ ok (record m { payload = p })
  unfolding message_of_bytes message_to_bytes
  message_of_bytes-to_bytes decode decodes m p bytes s h k =
      let w : e.encode (message_to_ipld e to m) ≡ some bytes = ok_or-eq-ok _ failed k in
      rw (decodes _ bytes w, message_of_ipld-to_ipld m p s h) refl
