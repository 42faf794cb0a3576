-- ===== src/Core/InstructionResult/Laws.antt =====
-- The Ipld form of a result: the round trip, and exactly which values read as a result.
use homestar.Prelude.{◌≡◌, arith, eq_iff}
use homestar.Result.{ok}
use homestar.Ipld.{Ipld, Items, nil, cons, string, list}
use homestar.Core.InstructionResult.{
  InstructionResult, success, failure, just, ok_tag, err_tag, just_tag, result_to_ipld,
  result_of_ipld,
}

module _ {C F T : Type 0} (into : T → Ipld C F) (from : Ipld C F → T) where
  -- If the payload's own conversions are inverse, a result written as Ipld is read back as
  -- itself.
  pub result_of_ipld-to_ipld :
      ((t : T) → from (into t) ≡ t)
      → (r : InstructionResult T) → result_of_ipld from (result_to_ipld into r) ≡ ok r
  unfolding result_of_ipld result_to_ipld
  result_of_ipld-to_ipld back (success t) = rw back
  result_of_ipld-to_ipld back (failure t) = rw back
  result_of_ipld-to_ipld back (just t) = rw back

module _ {C F : Type 0} where
  items_only :
      (v : Items C F) (r : InstructionResult (Ipld C F))
      → result_of_ipld (λ x. x) (list v) ≡ ok r
      → list v ≡ result_to_ipld (λ x. x) r
  unfolding result_of_ipld result_to_ipld
  items_only (cons (string tag) (cons res nil)) r h =
      ground (arith, eq_iff tag ok_tag, eq_iff tag err_tag, eq_iff tag just_tag)
  items_only _ r h = cc

  -- With the payload kept as Ipld, the only values that read as a result are those that it is
  -- written as: two-element lists with one of the three tags in front.
  pub result_of_ipld_only :
      (x : Ipld C F) (r : InstructionResult (Ipld C F))
      → result_of_ipld (λ y. y) x ≡ ok r
      → x ≡ result_to_ipld (λ y. y) r
  result_of_ipld_only (list v) r h = items_only v r h
  result_of_ipld_only x r h = unfold result_of_ipld in cc
