-- ===== src/Core/Input/Awaits.antt =====
-- What the resolution of a task's arguments keeps and what it leaves.
use homestar.Prelude.{
  suc, ◌≡◌, refl, Option, none, List, [], ◌∷◌, ap, length, inl, inr, Option-cases,
}
use homestar.Prelude.Vec.{All}
use homestar.Result.{Result, ok, err}
use homestar.Ipld.{Ipld}
use homestar.Ipld.Serde.{Serde}
use homestar.Core.Error.{Error}
use homestar.Core.Pointer.{Await, instruction_cid, await_of_ipld}
use homestar.Core.InstructionResult.{InstructionResult}
use homestar.Core.Input.Defs.{Input, plain, deferred, arg, deferreds}
use homestar.Core.Input.Resolve.{resolve_plain, resolve, resolve_await, resolve_args}

module _ {C F T : Type 0} (into : T → Ipld C F) (lookup : C → Option (InstructionResult T)) where
  await_unanswered :
      (a : Await C) (xs : List (Input C F T))
      → All (λ c. lookup c ≡ none) (deferreds xs)
      → All (λ c. lookup c ≡ none) (deferreds (resolve_await into lookup a ∷ xs))
  unfolding deferreds resolve_await
  await_unanswered a xs h = elim (Option-cases (lookup (instruction_cid a))) [
    | inl e ↦ rw (e, resolve_await) (e, h)
    | inr (r, e) ↦ rw (e, resolve_await) h
  ]

  plain_unanswered :
      (x : Ipld C F) (promise : Result (Error C F (Unit {0})) (Await C)) (xs : List (Input C F T))
      → All (λ c. lookup c ≡ none) (deferreds xs)
      → All (λ c. lookup c ≡ none) (deferreds (resolve_plain into lookup x promise ∷ xs))
  unfolding deferreds resolve_plain
  plain_unanswered x (ok a) xs h = await_unanswered a xs h
  plain_unanswered x (err e) xs h = h

  module _ {P : Type 0} (s : Serde C F P) where
    input_unanswered :
        (x : Input C F T) (xs : List (Input C F T))
        → All (λ c. lookup c ≡ none) (deferreds xs)
        → All (λ c. lookup c ≡ none) (deferreds (resolve into lookup s x ∷ xs))
    unfolding resolve deferreds
    input_unanswered (plain x) xs h = plain_unanswered x (await_of_ipld s x) xs h
    input_unanswered (deferred a) xs h = await_unanswered a xs h
    input_unanswered (arg r) xs h = h

    -- The arguments keep their number, and a promise that is still awaited afterwards is one
    -- that the lookup does not answer.
    pub resolve_args_lem :
        (xs : List (Input C F T))
        → let ys = resolve_args into lookup s xs in
          (length ys ≡ length xs) × All (λ c. lookup c ≡ none) (deferreds ys)
    unfolding resolve_args deferreds
    resolve_args_lem [] = (refl, tt)
    resolve_args_lem (x ∷ xs) =
        let (n, u) = resolve_args_lem xs in (ap suc n, input_unanswered x _ u)
