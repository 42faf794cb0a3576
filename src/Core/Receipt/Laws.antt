-- ===== src/Core/Receipt/Laws.antt =====
-- Receipts through Ipld.
use homestar.Prelude.{◌≡◌, refl, Option, none, some}
use homestar.Result.{ok}
use homestar.Ipld.{string}
use homestar.Foreign.{Foreign, IsForeign}
use homestar.Core.Pointer.Laws.{pointer_of_ipld-to_ipld}
use homestar.Core.InstructionResult.Laws.{result_of_ipld-to_ipld}
use homestar.Core.Proof.Laws.{prf_of_ipld-to_ipld}
use homestar.Core.Principal.{Issuer, issuer_to_string}
use homestar.Core.Receipt.{
  Receipt, issuer_or_null, issuer_of, issuer_of_principal, receipt_to_ipld, receipt_of_ipld,
}

module _ {C F P U : Type 0} (e : Foreign C F P U) where
  -- What becomes of an issuer: its text, read as a principal by serde.
  abbrev pub reread : Option (Issuer P) → Option (Issuer P)
  reread none = none
  reread (some i) = issuer_of_principal (e.from_principal (string (issuer_to_string e i)))

  pub issuer_roundtrip :
      (o : Option (Issuer P)) → issuer_of e (some (issuer_or_null e o)) ≡ reread o
  issuer_roundtrip none = refl
  issuer_roundtrip (some i) = refl

module _ {C F P U : Type 0} (e : Foreign C F P U) (law : IsForeign e) where
  -- Where serde reads as it documents, a receipt written as Ipld is read back without an error,
  -- with every field unchanged but the issuer: a present issuer becomes what serde makes of its
  -- text, and none at all if serde refuses the text.
  pub receipt_of_ipld-to_ipld :
      (r : Receipt C F P)
      → receipt_of_ipld e (receipt_to_ipld e r) ≡ ok (record r { issuer = reread e r.issuer })
  unfolding receipt_of_ipld receipt_to_ipld
  receipt_of_ipld-to_ipld r = rw (
    law.serde.map_some,
    pointer_of_ipld-to_ipld e.serde law.serde r.ran,
    result_of_ipld-to_ipld {C = C} {F = F} (λ x. x) (λ x. x) (λ x. refl) r.out,
    prf_of_ipld-to_ipld e.serde law.serde r.prf,
    issuer_roundtrip e r.issuer,
  )
