-- ===== src/Runtime/Receipt.antt =====
-- homestar-runtime/src/receipt.rs: receipts with their own CID and their instruction's, for the
-- database, and the capsule that is shared over the network. An `anyhow` error is an `Error`
-- without content: the code builds it from a text and only displays it.
pub mod Laws
use homestar.Prelude.{String, Option, none, some, [], ◌∷◌}
use homestar.Result.{Result, ok, err, ok_or, map_err, ◌>>=◌}
use homestar.Ipld.{Ipld, null, string, map, get, insert, from_list}
use homestar.Foreign.{Foreign}
use homestar.Core.Pointer.{Pointer, new, pointer_to_ipld, pointer_of_ipld}
use homestar.Core.InstructionResult.{
  InstructionResult, success, failure, just, result_to_ipld, result_of_ipld,
}
use homestar.Core.Proof.{UcanPrf, prf_to_ipld, prf_of_ipld}
use homestar.Core.Principal.{Issuer}
use homestar.Core.Instruction.{to_cid}
use homestar.Core.Receipt as Invocation

-- `consts::INVOCATION_VERSION`
abbrev pub invocation_version : String
invocation_version = "0.2.0"

abbrev pub version_key : String
version_key = "version"

abbrev pub receipt_tag : String
receipt_tag = "ipvm/receipt"

abbrev pub cid_key : String
cid_key = "cid"

abbrev pub instruction_key : String
instruction_key = "instruction"

abbrev pub ran_key : String
ran_key = "ran"

abbrev pub out_key : String
out_key = "out"

abbrev pub issuer_key : String
issuer_key = "iss"

abbrev pub metadata_key : String
metadata_key = "meta"

abbrev pub proof_key : String
proof_key = "prf"

-- `LocalIpld` is a wrapper of an Ipld value for the database.
pub record Receipt (C F P : Type 0) : Type 0 where
  pub cid : Pointer C
  pub ran : Pointer C
  pub instruction : Pointer C
  pub out : InstructionResult (Ipld C F)
  pub meta : Ipld C F
  pub issuer : Option (Issuer P)
  pub prf : UcanPrf C
  pub version : String

-- `anyhow::Error`
pub data Failure : Type 0 where
  failed : Failure

abbrev pub any : {E : Type 0} → E → Failure
any e = failed

module _ {C F P : Type 0} where
  -- `Receipt::new`
  unfoldable pub new_receipt : C → Pointer C → Invocation.Receipt C F P → Receipt C F P
  new_receipt cid instruction r = record {
    cid = new cid;
    ran = r.ran;
    instruction = instruction;
    out = r.out;
    meta = r.meta;
    issuer = r.issuer;
    prf = r.prf;
    version = invocation_version;
  }

  -- `From<Receipt> for InvocationReceipt<Ipld>`
  unfoldable pub to_invocation : Receipt C F P → Invocation.Receipt C F P
  to_invocation r = record {
    ran = r.ran;
    out = r.out;
    meta = r.meta;
    issuer = r.issuer;
    prf = r.prf;
  }

  abbrev pub set_meta : Receipt C F P → Ipld C F → Receipt C F P
  set_meta r meta = record r { meta = meta }

-- `output_as_arg`, with `Arg: From<Ipld>` as an argument
unfoldable pub output_as_arg :
    {C F P A : Type 0} → (Ipld C F → A) → Receipt C F P → InstructionResult A
output_as_arg {C} {F} {P} {A} from r = elim r.out [
  | success res ↦ success (from res)
  | failure res ↦ failure (from res)
  | just res ↦ just (from res)
]

module _ {C F P U : Type 0} (e : Foreign C F P U) where
  -- `Receipt::try_with`
  unfoldable pub try_with : Pointer C → Invocation.Receipt C F P → Result Failure (Receipt C F P)
  unfolding new_receipt
  try_with instruction r = do
    cid ← map_err any (to_cid e (Invocation.receipt_to_ipld e r))
    ok (new_receipt cid instruction r)

  -- the `if let Ipld::Map(mut map)` of `Receipt::invocation_capsule`
  capsule_of : Ipld C F → Result Failure (Ipld C F)
  unfolding insert from_list
  capsule_of (map m) =
      ok (
        map
          (from_list ((receipt_tag, map (insert version_key (string invocation_version) m)) ∷ [])))
  capsule_of x = err failed

  -- `Receipt::invocation_capsule`, before the capsule is encoded
  unfoldable pub invocation_capsule : Invocation.Receipt C F P → Result Failure (Ipld C F)
  unfolding capsule_of
  invocation_capsule r = capsule_of (Invocation.receipt_to_ipld e r)

  -- `From<Receipt> for Ipld`
  unfoldable pub receipt_to_ipld : Receipt C F P → Ipld C F
  unfolding from_list
  receipt_to_ipld r = map (
      from_list (
        (cid_key, pointer_to_ipld r.cid)
        ∷ (ran_key, pointer_to_ipld r.ran)
        ∷ (instruction_key, pointer_to_ipld r.instruction)
        ∷ (out_key, result_to_ipld (λ x. x) r.out)
        ∷ (metadata_key, r.meta)
        ∷ (issuer_key, Invocation.issuer_or_null e r.issuer)
        ∷ (proof_key, prf_to_ipld r.prf)
        ∷ (version_key, string r.version)
        ∷ []))

  -- `TryFrom<Ipld> for Receipt`
  unfoldable pub receipt_of_ipld : Ipld C F → Result Failure (Receipt C F P)
  unfolding get
  receipt_of_ipld x = do
    m ← ok_or (e.from_map x) failed
    c ← ok_or (get cid_key m) failed
    cid ← ok_or (e.from_cid c) failed
    r ← ok_or (get ran_key m) failed
    ran ← map_err any (pointer_of_ipld e.serde r)
    i ← ok_or (get instruction_key m) failed
    instruction ← map_err any (pointer_of_ipld e.serde i)
    o ← ok_or (get out_key m) failed
    meta ← ok_or (get metadata_key m) failed
    p ← ok_or (get proof_key m) failed
    v ← ok_or (get version_key m) failed
    version ← ok_or (e.from_string v) failed
    out ← map_err any (result_of_ipld (λ y. y) o)
    prf ← map_err any (prf_of_ipld e.serde p)
    ok (record {
      cid = new cid;
      ran = ran;
      instruction = instruction;
      out = out;
      meta = meta;
      issuer = Invocation.issuer_of e (get issuer_key m);
      prf = prf;
      version = version;
    })
