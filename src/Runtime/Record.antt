-- ===== src/Runtime/Record.antt =====
-- homestar-runtime/src/event_handler/swarm_event/record.rs: the records that are found on the network.
-- The decoding of bytes is an argument: as an error message (`RequestResponseError::decode`, by the
-- crate bincode), and as Ipld (by serde_ipld_dagcbor). `N` stands for `PeerId`.
pub mod Shared
use text.Mathlib.Text.{◌==◌}
use homestar.Prelude.{ℕ, String, Option, none, some, List, if◌then◌else◌}
use homestar.Prelude.Classes.{Eq}
use homestar.Result.{Result, ok, err, ok_or, map_err, ◌>>=◌}
use homestar.Ipld.{Ipld, Fields, end, field, map, string, get}
use homestar.Foreign.{Foreign}
use homestar.Core.Pointer as Pointer
use homestar.Core.Receipt as Invocation
use homestar.Runtime.Receipt.{
  Receipt, Failure, failed, any, try_with, receipt_tag, version_key, invocation_version,
}
use homestar.Runtime.Info.{Info}
use homestar.Runtime.Info.Translate.{workflow_tag, info_of_ipld}

pub data DecodedRecord (C F P U N : Type 0) : Type 0 where
  receipt : Option N → Receipt C F P → DecodedRecord C F P U N
  workflow : Option N → Info C U → DecodedRecord C F P U N

-- `BTreeMap::remove`, which gives the rest
unfoldable pub remove : {C F : Type 0} → String → Fields C F → Fields C F
remove k end = end
remove k (field j v m) = if k == j then m else field j v (remove k m)

-- `rest.remove(VERSION_KEY) == Some(Ipld::String(..))`
unfoldable pub if_version :
    {C F R : Type 0} → Option (Ipld C F) → Result Failure R → Result Failure R
if_version (some (string t)) then_do = if t == invocation_version then then_do else err failed
if_version x then_do = err failed

module _ {C F P U N : Type 0} (e : Foreign C F P U) (eq : Eq C) where
  unfoldable pub decode_receipt :
      C → Option N → Fields C F → Result Failure (DecodedRecord C F P U N)
  unfolding remove
  decode_receipt key_cid peer rest = do
    invocation_receipt ← map_err any (Invocation.receipt_of_ipld e (map (remove version_key rest)))
    r ← try_with e (Pointer.new key_cid) invocation_receipt
    ok (receipt peer r)

  unfoldable pub decode_workflow : Option N → Fields C F → Result Failure (DecodedRecord C F P U N)
  decode_workflow peer rest = do i ← info_of_ipld e eq (map rest); ok (workflow peer i)

  -- the `match map.pop_first()`
  unfoldable pub decode_map : C → Option N → Fields C F → Result Failure (DecodedRecord C F P U N)
  unfolding if_version decode_receipt decode_workflow get
  decode_map key_cid peer (field code (map rest) _) =
      if code == receipt_tag
      then if_version (get version_key rest) (decode_receipt key_cid peer rest)
      else if code == workflow_tag
      then decode_workflow peer rest
      else err failed
  decode_map key_cid peer m = err failed

  abbrev pub decode_value :
      C → Option N → Option (Ipld C F) → Result Failure (DecodedRecord C F P U N)
  unfolding decode_map
  decode_value key_cid peer (some (map m)) = decode_map key_cid peer m
  decode_value key_cid peer x = err failed

  module _ (decode_error : List ℕ → Option String) (from_reader : List ℕ → Option (Ipld C F)) where
    -- `decode_capsule`
    unfoldable pub decode_capsule : C → Option N → List ℕ → Result Failure (DecodedRecord C F P U N)
    unfolding decode_value
    decode_capsule key_cid peer value = elim (decode_error value) [
      | some decoded_error ↦ err failed
      | none ↦ decode_value key_cid peer (from_reader value)
    ]
