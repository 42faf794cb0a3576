-- ===== src/Core/Nonce.antt =====
-- homestar-core/src/workflow/nonce.rs: nonces of 12 or 16 bytes, or none.
use homestar.Prelude.{ℕ, String, List, length, ◌==◌, if◌then◌else◌, ◌≡◌, refl, arith}
use homestar.Prelude.Int.{pos}
use homestar.Result.{Result, ok, err}
use homestar.Ipld.{Ipld, bytes, string, integer}
use homestar.Core.Error.{Error, unexpected_ipld}

pub data Nonce : Type 0 where
  nonce96 : List ℕ → Nonce
  nonce128 : List ℕ → Nonce
  empty : Nonce

-- The sizes that the array types `Nonce96` and `Nonce128` carry.
abbrev pub IsSized : Nonce → Type 0
IsSized (nonce96 b) = length b ≡ 12
IsSized (nonce128 b) = length b ≡ 16
IsSized empty = Unit

-- `Nonce::generate` and `Nonce::generate_128`, from the bytes of a new xid or UUID
abbrev pub generate : List ℕ → Nonce
generate xid = nonce96 xid

abbrev pub generate_128 : List ℕ → Nonce
generate_128 uuid = nonce128 uuid

-- `Display`, with the encoding `Base32HexLower.encode` as an argument
unfoldable pub nonce_to_string : (List ℕ → String) → Nonce → String
nonce_to_string encode (nonce96 b) = encode b
nonce_to_string encode (nonce128 b) = encode b
nonce_to_string encode empty = ""

module _ {C F : Type 0} where
  -- `From<Nonce> for Ipld`
  unfoldable pub nonce_to_ipld : Nonce → Ipld C F
  nonce_to_ipld (nonce96 b) = bytes b
  nonce_to_ipld (nonce128 b) = bytes b
  nonce_to_ipld empty = string ""

  -- `TryFrom<Ipld> for Nonce`
  unfoldable pub nonce_of_ipld : Ipld C F → Result (Error C F (Unit {0})) Nonce
  nonce_of_ipld (bytes v) =
      if length v == 12
      then ok (nonce96 v)
      else if length v == 16
      then ok (nonce128 v)
      else err (unexpected_ipld (integer (pos (length v))))
  nonce_of_ipld x = ok empty

  -- Whatever is read as a nonce has the size of its array.
  pub nonce_of_ipld-IsSized : (x : Ipld C F) (n : Nonce) → nonce_of_ipld x ≡ ok n → IsSized n
  unfolding nonce_of_ipld
  nonce_of_ipld-IsSized (bytes v) (nonce96 b) h = ground arith
  nonce_of_ipld-IsSized (bytes v) (nonce128 b) h = ground arith
  nonce_of_ipld-IsSized (bytes v) empty h = tt
  nonce_of_ipld-IsSized _ (nonce96 b) h = cc
  nonce_of_ipld-IsSized _ (nonce128 b) h = cc
  nonce_of_ipld-IsSized _ empty h = tt

-- A nonce of its array's size is read back as itself.
pub nonce_of_ipld-to_ipld :
    (C F : Type 0) (n : Nonce) → IsSized n → nonce_of_ipld {C = C} {F = F} (nonce_to_ipld n) ≡ ok n
unfolding nonce_of_ipld nonce_to_ipld
nonce_of_ipld-to_ipld C F (nonce96 b) h = ground arith
nonce_of_ipld-to_ipld C F (nonce128 b) h = ground arith
nonce_of_ipld-to_ipld C F empty h = refl
