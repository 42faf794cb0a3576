-- ===== src/Core/Receipt.antt =====
-- homestar-core/src/workflow/receipt.rs: receipts of invocations, with Ipld as their payload.
pub mod Laws
use homestar.Prelude.{String, Option, none, some, [], ◌∷◌}
use homestar.Result.{Result, ok, ok_or, ◌>>=◌}
use homestar.Ipld.{Ipld, null, string, map, get, from_list}
use homestar.Foreign.{Foreign}
use homestar.Core.Error.{Error, from_ipld, require}
use homestar.Core.Pointer.{Pointer, new, pointer_to_ipld, pointer_of_ipld}
use homestar.Core.InstructionResult.{InstructionResult, result_to_ipld, result_of_ipld}
use homestar.Core.Proof.{UcanPrf, prf_to_ipld, prf_of_ipld}
use homestar.Core.Principal.{Issuer, issuer_to_string}
use homestar.Core.Instruction.{to_cid}

abbrev pub ran_key : String
ran_key = "ran"

abbrev pub out_key : String
out_key = "out"

abbrev pub issuer_key : String
issuer_key = "iss"

abbrev pub metadata_key : String
metadata_key = "meta"

abbrev pub proof_key : String
proof_key = "prf"

-- `Receipt<Ipld>`
pub record Receipt (C F P : Type 0) : Type 0 where
  pub ran : Pointer C
  pub out : InstructionResult (Ipld C F)
  pub meta : Ipld C F
  pub issuer : Option (Issuer P)
  pub prf : UcanPrf C

-- `.ok().map(Issuer::new)`
abbrev pub issuer_of_principal : {P : Type 0} → Option P → Option (Issuer P)
issuer_of_principal none = none
issuer_of_principal (some p) = some (record { principal = p })

module _ {C F P U : Type 0} (e : Foreign C F P U) where
  -- `.as_ref().map(|issuer| issuer.to_string().into()).unwrap_or(Ipld::Null)`
  abbrev pub issuer_or_null : Option (Issuer P) → Ipld C F
  issuer_or_null none = null
  issuer_or_null (some i) = string (issuer_to_string e i)

  -- `map.get(ISSUER_KEY)`, where null and whatever is no principal count as no issuer
  abbrev pub issuer_of : Option (Ipld C F) → Option (Issuer P)
  issuer_of none = none
  issuer_of (some null) = none
  issuer_of (some x) = issuer_of_principal (e.from_principal x)

  -- `From<&Receipt<Ipld>> for Ipld`
  unfoldable pub receipt_to_ipld : Receipt C F P → Ipld C F
  unfolding from_list
  receipt_to_ipld r = map (
      from_list (
        (ran_key, pointer_to_ipld r.ran)
        ∷ (out_key, result_to_ipld (λ x. x) r.out)
        ∷ (metadata_key, r.meta)
        ∷ (issuer_key, issuer_or_null r.issuer)
        ∷ (proof_key, prf_to_ipld r.prf)
        ∷ []))

  -- `TryFrom<Ipld> for Receipt<Ipld>`
  unfoldable pub receipt_of_ipld : Ipld C F → Result (Error C F (Unit {0})) (Receipt C F P)
  unfolding get
  receipt_of_ipld x = do
    m ← ok_or (e.from_map x) from_ipld
    r ← require ran_key m
    ran ← pointer_of_ipld e.serde r
    o ← require out_key m
    meta ← require metadata_key m
    p ← require proof_key m
    out ← result_of_ipld (λ y. y) o
    prf ← prf_of_ipld e.serde p
    ok (record {
      ran = ran;
      out = out;
      meta = meta;
      issuer = issuer_of (get issuer_key m);
      prf = prf;
    })

  -- `TryFrom<Receipt<Ipld>> for Pointer`
  unfoldable pub receipt_pointer : Receipt C F P → Result (Error C F (Unit {0})) (Pointer C)
  receipt_pointer r = do c ← to_cid e (receipt_to_ipld r); ok (new c)
