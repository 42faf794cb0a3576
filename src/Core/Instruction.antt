-- ===== src/Core/Instruction.antt =====
-- homestar-core/src/workflow/instruction.rs: an instruction, expanded or by pointer.
pub mod Laws
use Prim.Native.String.{◌++◌}
use homestar.Prelude.{String, Option, none, some, [], ◌∷◌}
use homestar.Result.{Result, ok, err, ok_or, ◌>>=◌, map_err}
use homestar.Ipld.{Ipld, map, link, string, get, from_list}
use homestar.Foreign.{Foreign}
use homestar.Core.Error.{
  Error, from_ipld, of_string, require, cid_encode, parse_resource, missing_field,
  dag_cbor_translation, unexpected_ipld, invalid_discriminant,
}
use homestar.Core.Pointer.{Pointer, new, pointer_to_ipld, pointer_of_ipld}
use homestar.Core.Nonce.{Nonce, empty, generate, nonce_to_ipld, nonce_of_ipld}
use homestar.Core.Principal.{Ability, ability_deserialize}
use homestar.Core.Input.Defs.{Input, input_to_ipld, input_of_ipld}

abbrev pub resource_key : String
resource_key = "rsc"

abbrev pub op_key : String
op_key = "op"

abbrev pub input_key : String
input_key = "input"

abbrev pub nnc_key : String
nnc_key = "nnc"

pub record Instruction (C F U T : Type 0) : Type 0 where
  pub rsc : U
  pub op : Ability
  pub input : Input C F T
  pub nnc : Nonce

pub data RunInstruction (C F U T : Type 0) : Type 0 where
  expanded : Instruction C F U T → RunInstruction C F U T
  ptr : Pointer C → RunInstruction C F U T

module _ {C F U T : Type 0} where
  -- `Instruction::new`, `new_with_nonce` and `unique`
  abbrev pub new_instruction : U → Ability → Input C F T → Instruction C F U T
  new_instruction rsc op input = record { rsc = rsc; op = op; input = input; nnc = empty }

  abbrev pub new_with_nonce : U → Ability → Input C F T → Nonce → Instruction C F U T
  new_with_nonce rsc op input nnc = record { rsc = rsc; op = op; input = input; nnc = nnc }

  -- `TryFrom<RunInstruction> for Instruction`
  unfoldable pub instruction_of_run :
      RunInstruction C F U T → Result (Error C F (RunInstruction C F U T)) (Instruction C F U T)
  instruction_of_run (expanded i) = ok i
  instruction_of_run r = err (invalid_discriminant r)

  -- `TryFrom<RunInstruction> for Pointer`
  unfoldable pub pointer_of_run :
      RunInstruction C F U T → Result (Error C F (RunInstruction C F U T)) (Pointer C)
  pointer_of_run (ptr p) = ok p
  pointer_of_run r = err (invalid_discriminant r)

-- `DagCbor::to_cid` and `DagCborRef::to_cid`, from the value's Ipld
unfoldable pub to_cid :
    {C F P U : Type 0} → Foreign C F P U → Ipld C F → Result (Error C F (Unit {0})) C
to_cid e x = do bytes ← ok_or (e.encode x) dag_cbor_translation; ok (e.digest_v1 bytes)

module _ {C F P U : Type 0} (e : Foreign C F P U) where
  -- the `match map.get(RESOURCE_KEY)` of `TryFrom<Ipld> for Instruction`
  unfoldable pub resource_of : Option (Ipld C F) → Result (Error C F (Unit {0})) U
  resource_of (some (link cid)) = do
    txt ← ok_or (e.cid_to_base32 cid) cid_encode
    ok_or (e.url_parse ("ipfs://" ++ txt)) parse_resource
  resource_of (some (string txt)) = ok_or (e.url_parse txt) parse_resource
  resource_of _ = err (missing_field resource_key)

-- `map.get(NNC_KEY).unwrap_or(&Ipld::String(""))`
abbrev pub nonce_or : {C F : Type 0} → Option (Ipld C F) → Ipld C F
nonce_or none = string ""
nonce_or (some x) = x

module _ {C F P U T : Type 0} (e : Foreign C F P U) where
  module _ (into : T → Ipld C F) where
    -- `From<Instruction> for Ipld`
    unfoldable pub instruction_to_ipld : Instruction C F U T → Ipld C F
    unfolding from_list
    instruction_to_ipld i = map (
        from_list (
          (resource_key, string (e.url_to_string i.rsc))
          ∷ (op_key, string i.op.text)
          ∷ (input_key, input_to_ipld into i.input)
          ∷ (nnc_key, nonce_to_ipld i.nnc)
          ∷ []))

    -- `TryFrom<Instruction> for Pointer`
    unfoldable pub instruction_pointer :
        Instruction C F U T → Result (Error C F (Unit {0})) (Pointer C)
    unfolding to_cid instruction_to_ipld
    instruction_pointer i = do c ← to_cid e (instruction_to_ipld i); ok (new c)

    -- `From<RunInstruction> for Ipld`
    unfoldable pub run_to_ipld : RunInstruction C F U T → Ipld C F
    unfolding instruction_to_ipld
    run_to_ipld (expanded i) = instruction_to_ipld i
    run_to_ipld (ptr p) = pointer_to_ipld p

  module _ (from : Ipld C F → T) where
    -- `TryFrom<Ipld> for Instruction`; a missing input is reported as an `Error<String>`
    unfoldable pub instruction_of_ipld :
        Ipld C F → Result (Error C F (Unit {0})) (Instruction C F U T)
    unfolding resource_of get
    instruction_of_ipld x = do
      m ← ok_or (e.from_map x) from_ipld
      rsc ← resource_of e (get resource_key m)
      t ← require op_key m
      op ← ability_deserialize e t
      i ← map_err of_string (require input_key m)
      input ← map_err of_string (input_of_ipld e.serde from i)
      nnc ← nonce_of_ipld (nonce_or (get nnc_key m))
      ok (record { rsc = rsc; op = op; input = input; nnc = nnc })

    -- `TryFrom<Ipld> for RunInstruction`
    unfoldable pub run_of_ipld : Ipld C F → Result (Error C F (Unit {0})) (RunInstruction C F U T)
    unfolding instruction_of_ipld
    run_of_ipld (map m) = do i ← instruction_of_ipld (map m); ok (expanded i)
    run_of_ipld (link c) = do p ← pointer_of_ipld e.serde (link c); ok (ptr p)
    run_of_ipld x = err (unexpected_ipld x)
