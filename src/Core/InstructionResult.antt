-- ===== src/Core/InstructionResult.antt =====
-- homestar-core/src/workflow/instruction_result.rs: a tagged output, and its form as an Ipld list.
pub mod Laws
use text.Mathlib.Text.{◌==◌}
use homestar.Prelude.{String, if◌then◌else◌}
use homestar.Result.{Result, ok, err}
use homestar.Ipld.{Ipld, Items, nil, cons, string, list}
use homestar.Core.Error.{Error, unexpected_ipld, not_an_ipld_list}

pub data InstructionResult {ℓ} (T : Type ℓ) : Type ℓ where
  success : T → InstructionResult T
  failure : T → InstructionResult T
  just : T → InstructionResult T

abbrev pub ok_tag : String
ok_tag = "ok"

abbrev pub err_tag : String
err_tag = "error"

abbrev pub just_tag : String
just_tag = "just"

abbrev pub into_inner {ℓ} : {T : Type ℓ} → InstructionResult T → T
into_inner (success inner) = inner
into_inner (failure inner) = inner
into_inner (just inner) = inner

module _ {C F T : Type 0} where
  -- `From<InstructionResult<T>> for Ipld`, with `Ipld: From<T>` as an argument
  unfoldable pub result_to_ipld : (T → Ipld C F) → InstructionResult T → Ipld C F
  result_to_ipld into (success res) = list (cons (string ok_tag) (cons (into res) nil))
  result_to_ipld into (failure res) = list (cons (string err_tag) (cons (into res) nil))
  result_to_ipld into (just res) = list (cons (string just_tag) (cons (into res) nil))

  -- the slice patterns of `TryFrom<Ipld> for InstructionResult<T>`
  result_of_items : (Ipld C F → T) → Items C F → Result (Error C F (Unit {0})) (InstructionResult T)
  result_of_items from (cons (string tag) (cons res nil)) =
      if tag == ok_tag
      then ok (success (from res))
      else if tag == err_tag
      then ok (failure (from res))
      else if tag == just_tag
      then ok (just (from res))
      else err (unexpected_ipld (list (cons (string tag) (cons res nil))))
  result_of_items from v = err (unexpected_ipld (list v))

  -- `TryFrom<Ipld> for InstructionResult<T>`, with `T: From<Ipld>` as an argument
  unfoldable pub result_of_ipld :
      (Ipld C F → T) → Ipld C F → Result (Error C F (Unit {0})) (InstructionResult T)
  unfolding result_of_items
  result_of_ipld from (list v) = result_of_items from v
  result_of_ipld from x = err not_an_ipld_list
