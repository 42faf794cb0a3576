-- ===== src/Runtime/Record/Shared.antt =====
-- A receipt that is shared over the network.
use mathlib.Core.Path.{subst}
use homestar.Prelude.{ℕ, ◌<◌, ◌^◌, ap, ◌∙◌, ◌≡◌, refl, String, Option, none, some, List}
use homestar.Prelude.Classes.{Eq}
use homestar.Result.{ok, ok-injective, ◌>>=◌}
use homestar.Ipld.{Ipld, get}
use homestar.Foreign.{Foreign, IsForeign}
use homestar.Core.Pointer.{Pointer}
use homestar.Core.Pointer.Laws.{pointer_of_ipld-to_ipld}
use homestar.Core.InstructionResult.Laws.{result_of_ipld-to_ipld}
use homestar.Core.Proof.Laws.{prf_of_ipld-to_ipld}
use homestar.Core.Receipt as Invocation
use homestar.Core.Receipt.Laws.{reread, issuer_roundtrip}
use homestar.Runtime.Receipt.{Receipt, invocation_capsule, try_with}
use homestar.Runtime.Resources.{IndexedResources}
use homestar.Runtime.Resources.Translate.{indexed_to_ipld, indexed_of_ipld}
use homestar.Runtime.Info.{Info}
use homestar.Runtime.Info.Translate.{info_capsule, info_to_ipld, info_of_ipld}
use homestar.Runtime.Info.Laws.{info_of_ipld-to_ipld}
use homestar.Runtime.Record.{
  receipt, workflow, decode_workflow, remove, decode_capsule, decode_map, decode_receipt,
  if_version, decode_value,
}

module _ {C F P U N : Type 0} (e : Foreign C F P U) (eq : Eq C) (law : IsForeign e)
    (decode_error : List ℕ → Option String) (from_reader : List ℕ → Option (Ipld C F)) where
  -- Where serde reads as it documents, a node that finds the capsule of a receipt under the CID
  -- of the receipt's instruction decodes the very receipt that was stored, if the bytes decode
  -- as the capsule and not as an error message and the issuer is read back from its text.
  pub decode_capsule-invocation_capsule :
      (i : Pointer C) (r : Invocation.Receipt C F P) (q : Receipt C F P) (capsule : Ipld C F)
      (value : List ℕ) (peer : Option N)
      → try_with e i r ≡ ok q
      → reread e r.issuer ≡ r.issuer
      → invocation_capsule e r ≡ ok capsule
      → decode_error value ≡ none
      → from_reader value ≡ some capsule
      → decode_capsule e eq decode_error from_reader i.cid peer value ≡ ok (receipt peer q)
  unfolding decode_capsule decode_map decode_value decode_receipt remove if_version
      invocation_capsule get Invocation.receipt_to_ipld Invocation.receipt_of_ipld
  decode_capsule-invocation_capsule i r q capsule value peer h s k d f =
      rw (decode_capsule, d, f)
        (subst (λ x. decode_value e eq i.cid peer (some x) ≡ ok (receipt peer q)) (ok-injective k)
          (rw
            (
              law.serde.map_some,
              pointer_of_ipld-to_ipld e.serde law.serde r.ran,
              result_of_ipld-to_ipld {C = C} {F = F} (λ x. x) (λ x. x) (λ x. refl) r.out,
              prf_of_ipld-to_ipld e.serde law.serde r.prf,
              issuer_roundtrip e r.issuer,
              s,
              h,
            )
            refl))

  -- The encoded capsule of a workflow's information is decoded as that information, with the
  -- resources that its own Ipld is read as.
  pub decode_capsule-info_capsule :
      (i : Info C U) (resources : IndexedResources C U) (cid : C) (peer : Option N) (value : List ℕ)
      → i.num_tasks < 2 ^ 32
      → i.progress_count < 2 ^ 32
      → indexed_of_ipld e eq (indexed_to_ipld e i.resources) ≡ ok resources
      → decode_error value ≡ none
      → from_reader value ≡ some (info_capsule e i)
      → decode_capsule e eq decode_error from_reader cid peer value
        ≡ ok (workflow peer (record i { resources = resources }))
  unfolding decode_capsule decode_map decode_value decode_workflow info_capsule info_to_ipld
  decode_capsule-info_capsule i resources cid peer value n p res d f =
      let info : info_of_ipld e eq (info_to_ipld e i) ≡ ok (record i { resources = resources }) =
        info_of_ipld-to_ipld e law eq i n p
        ∙ ap (λ r. r >>= λ x. ok (record i { resources = x })) res in
      rw (decode_capsule, d, f) (ap (λ r. r >>= λ x. ok (workflow peer x)) info)
