-- ===== src/Tests/Resolution.antt =====
-- Promises and links, resolved by a lookup that knows one receipt.
use homestar.Prelude.{
  ℕ, ◌≡◌, String, Option, some, none, List, [], ◌∷◌, if◌then◌else◌, length, Bool-cases, inl, inr,
}
use text.Mathlib.Text.{◌==◌}
use mathlib.Core.Path.{subst}
use mathlib.Core.Option.{some-injective}
use homestar.Prelude.Vec.{All}
use homestar.Ipld.{map, list, string, link, field, end, cons, nil}
use homestar.Sample.{Value, serde}
use homestar.Core.Pointer.{new, ok_result}
use homestar.Core.InstructionResult.{InstructionResult, success, into_inner}
use homestar.Core.Input.Defs.{Input, plain, deferred, deferreds}
use homestar.Core.Input.Resolve.{resolve_links, resolve_args}
use homestar.Core.Input.Links.{Settled, IsClosed, resolve_links-Settled}
use homestar.Core.Input.Awaits.{resolve_args_lem}

abbrev same : Value → Value
same x = x

abbrev lookup : String → Option (InstructionResult Value)
lookup c = if c == "bafyone" then some (success (string "done")) else none

lookup-IsClosed : IsClosed same lookup
lookup-IsClosed c r h = elim (Bool-cases (c == "bafyone")) [
  | inl e ↦ subst (λ q. Settled lookup (into_inner q)) (some-injective _ _ (rw e at h)) tt
  | inr e ↦ absurd (cc (rw e at h))
]

abbrev nested : Value
nested = map (
    field "await/*" (link "bafyone")
      (field "args" (list (cons (link "bafyone") (cons (link "bafytwo") nil))) end))

resolve_links-Settled_example :
    Settled lookup (resolve_links same lookup nested)
    × (resolve_links same lookup (resolve_links same lookup nested)
        ≡ resolve_links same lookup nested)
resolve_links-Settled_example = resolve_links-Settled same lookup lookup-IsClosed nested

abbrev untouched : Value
untouched = list (cons (link "bafytwo") (cons (string "x") nil))

abbrev args : List (Input String ℕ Value)
args =
    deferred (record { instruction = new "bafyone"; result = ok_result })
    ∷ deferred (record { instruction = new "bafytwo"; result = ok_result })
    ∷ plain nested
    ∷ []

resolve_args_lem_example :
    (length (resolve_args same lookup serde args) ≡ length args)
    × All (λ c. lookup c ≡ none) (deferreds (resolve_args same lookup serde args))
resolve_args_lem_example = resolve_args_lem same lookup serde args
