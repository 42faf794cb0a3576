-- ===== src/Core/Input/Resolve.antt =====
-- Resolution of awaited promises and links (`Input::resolve`, `resolve_args`, `resolve_links`).
-- `lookup_fn` is a function of the model: what one call answers for a CID does not change while the
-- inputs are resolved, and `none` stands for a `ResolveError`. The futures that `join_all` drives
-- have no effect on one another then, and their results come in order.
use text.Mathlib.Text.{◌==◌}
use homestar.Prelude.{String, Option, none, some, List, [], ◌∷◌, if◌then◌else◌}
use homestar.Core.Error.{Error}
use homestar.Result.{Result, ok, err}
use homestar.Ipld.{Ipld, Items, Fields, nil, cons, end, field, map, list, link}
use homestar.Ipld.Serde.{Serde}
use homestar.Core.Pointer.{Await, ptr_branch, instruction_cid, await_of_ipld}
use homestar.Core.InstructionResult.{InstructionResult, into_inner, result_to_ipld}
use homestar.Core.Input.Defs.{Input, Args, plain, deferred, arg}

module _ {C F T : Type 0} (into : T → Ipld C F) (lookup : C → Option (InstructionResult T)) where
  -- a link on its own or in a list
  unfoldable pub resolve_link : C → Ipld C F
  resolve_link c = elim (lookup c) [ some r ↦ into (into_inner r) | none ↦ link c ]

  -- the value of a map's entry; `resolved` is what `resolve_links` makes of a map or a list, and
  -- of any value that holds no link it makes that value
  unfoldable pub resolve_entry : String → Ipld C F → Ipld C F → Ipld C F
  resolve_entry k (link c) resolved = elim (lookup c) [
    | some r ↦ if k == ptr_branch then result_to_ipld into r else into (into_inner r)
    | none ↦ link c
  ]
  resolve_entry k v resolved = resolved

  -- `resolve_links`. The entries are collected into a `BTreeMap` again, under the keys that they had.
  unfoldable mutual
    unfolding resolve_link resolve_entry

    pub resolve_links : Ipld C F → Ipld C F
    resolve_links (map m) = map (resolve_fields m)
    resolve_links (list l) = list (resolve_items l)
    resolve_links (link c) = resolve_link c
    resolve_links x = x

    pub resolve_items : Items C F → Items C F
    resolve_items nil = nil
    resolve_items (cons x xs) = cons (resolve_links x) (resolve_items xs)

    pub resolve_fields : Fields C F → Fields C F
    resolve_fields end = end
    resolve_fields (field k v m) = field k (resolve_entry k v (resolve_links v)) (resolve_fields m)

  -- an awaited promise
  unfoldable pub resolve_await : Await C → Input C F T
  resolve_await a = elim (lookup (instruction_cid a)) [ some r ↦ arg r | none ↦ deferred a ]

  -- the `if let Ok(await_promise) = Await::try_from(&ipld)` of `Input::resolve`
  unfoldable pub resolve_plain : Ipld C F → Result (Error C F (Unit {0})) (Await C) → Input C F T
  unfolding resolve_await
  resolve_plain x (ok promise) = resolve_await promise
  resolve_plain x (err _) = plain (resolve_links x)

  module _ {P : Type 0} (s : Serde C F P) where
    -- `Input::resolve`
    unfoldable pub resolve : Input C F T → Input C F T
    unfolding resolve_plain
    resolve (plain x) = resolve_plain x (await_of_ipld s x)
    resolve (arg a) = arg a
    resolve (deferred promise) = resolve_await promise

    -- `resolve_args`
    unfoldable pub resolve_args : List (Input C F T) → List (Input C F T)
    unfolding resolve
    resolve_args [] = []
    resolve_args (x ∷ xs) = resolve x ∷ resolve_args xs

    -- `Args::resolve`
    abbrev pub args_resolve : Args C F T → Args C F T
    args_resolve args = record { inner = resolve_args args.inner }
