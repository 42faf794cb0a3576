-- ===== src/Runtime/Receipt/Laws.antt =====
-- Stored receipts through Ipld, and what a capsule carries.
use mathlib.Core.Path.{subst}
use homestar.Prelude.{◌≡◌, refl, some}
use homestar.Core.Instruction.{to_cid}
use homestar.Result.{>>=-eq-ok, map_err, map_err-eq-ok, ok-injective, ok}
use homestar.Ipld.{Fields, string, map, field, end, get}
use homestar.Foreign.{Foreign, IsForeign}
use homestar.Core.Pointer.{Pointer}
use homestar.Core.Pointer.Laws.{pointer_of_ipld-to_ipld}
use homestar.Core.InstructionResult.Laws.{result_of_ipld-to_ipld}
use homestar.Core.Proof.Laws.{prf_of_ipld-to_ipld}
use homestar.Core.Receipt as Invocation
use homestar.Core.Receipt.Laws.{reread, issuer_roundtrip}
use homestar.Runtime.Receipt.{
  Receipt, any, try_with, to_invocation, receipt_tag, version_key, invocation_capsule,
  invocation_version, receipt_to_ipld, receipt_of_ipld,
}

module _ {C F P U : Type 0} (e : Foreign C F P U) (law : IsForeign e) where
  -- Where serde reads as it documents, a stored receipt written as Ipld is read back without an
  -- error, with every field unchanged but the issuer, which becomes what serde makes of its
  -- text.
  pub stored_receipt_of_ipld-to_ipld :
      (r : Receipt C F P)
      → receipt_of_ipld e (receipt_to_ipld e r) ≡ ok (record r { issuer = reread e r.issuer })
  unfolding receipt_of_ipld receipt_to_ipld
  stored_receipt_of_ipld-to_ipld r = rw (
    law.serde.map_some,
    law.serde.cid_some,
    pointer_of_ipld-to_ipld e.serde law.serde r.ran,
    pointer_of_ipld-to_ipld e.serde law.serde r.instruction,
    result_of_ipld-to_ipld {C = C} {F = F} (λ x. x) (λ x. x) (λ x. refl) r.out,
    prf_of_ipld-to_ipld e.serde law.serde r.prf,
    law.serde.string_some,
    issuer_roundtrip e r.issuer,
  )

  -- Where serde reads as it documents, the capsule of a receipt is a map with the receipt's tag
  -- as its only key. What stands under the tag has the invocation version, and reads as the
  -- receipt itself, up to what serde makes of the issuer's text.
  pub invocation_capsule_lem :
      (r : Invocation.Receipt C F P)
      → (m : Fields C F) × (invocation_capsule e r ≡ ok (map (field receipt_tag (map m) end)))
        × (get version_key m ≡ some (string invocation_version))
        × (Invocation.receipt_of_ipld e (map m) ≡ ok (record r { issuer = reread e r.issuer }))
  unfolding invocation_capsule Invocation.receipt_to_ipld get Invocation.receipt_of_ipld
  invocation_capsule_lem r = (
    _,
    refl,
    refl,
    rw (
      law.serde.map_some,
      pointer_of_ipld-to_ipld e.serde law.serde r.ran,
      result_of_ipld-to_ipld {C = C} {F = F} (λ x. x) (λ x. x) (λ x. refl) r.out,
      prf_of_ipld-to_ipld e.serde law.serde r.prf,
      issuer_roundtrip e r.issuer,
    ),
  )

module _ {C F P U : Type 0} (e : Foreign C F P U) where
  -- `q` holds the invocation's receipt `r`, under the CID of that content and for instruction `i`.
  abbrev pub IsStoredOf : Pointer C → Invocation.Receipt C F P → Receipt C F P → Type 0
  IsStoredOf i r q =
      (to_invocation q ≡ r)
      × (to_cid e (Invocation.receipt_to_ipld e (to_invocation q)) ≡ ok q.cid.cid)
      × (q.instruction ≡ i)
      × (q.version ≡ invocation_version)

  -- A receipt that is made for the database holds the invocation's receipt, under the CID of
  -- exactly that content, with the instruction that was given and the invocation version.
  pub try_with-IsStoredOf :
      (i : Pointer C) (r : Invocation.Receipt C F P) (q : Receipt C F P)
      → try_with e i r ≡ ok q
      → IsStoredOf i r q
  unfolding try_with to_invocation
  try_with-IsStoredOf i r q h =
      let (c, ec, hq) = >>=-eq-ok (map_err any (to_cid e (Invocation.receipt_to_ipld e r))) _ h in
      subst (IsStoredOf i r) (ok-injective hq) (refl, map_err-eq-ok any _ ec, refl, refl)
