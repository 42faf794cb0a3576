-- ===== src/Core/Input/Defs.antt =====
-- homestar-core/src/workflow/input.rs and input/parse.rs: a task's input and its arguments.
use mathlib.Core.Option
use homestar.Prelude.{String, Option, none, some, List, [], ◌∷◌}
use homestar.Result.{Result, ok, err, ok_or, ◌>>=◌, map_err}
use homestar.Ipld.{Ipld, Items, Fields, nil, cons, list, link, get}
use homestar.Ipld.Serde.{Serde}
use homestar.Core.Error.{Error, of_unit, not_an_ipld_list, invalid_discriminant}
use homestar.Core.Pointer.{
  Await, ok_branch, err_branch, ptr_branch, result, instruction_cid, await_to_ipld, await_of_ipld,
  pointer_of_ipld,
}
use homestar.Core.InstructionResult.{InstructionResult, result_to_ipld, result_of_ipld}

-- `Input<T>`
pub data Input (C F T : Type 0) : Type 0 where
  plain : Ipld C F → Input C F T
  deferred : Await C → Input C F T
  arg : InstructionResult T → Input C F T

-- `struct Args<T>(Vec<Input<T>>)`
pub record Args (C F T : Type 0) : Type 0 where
  pub inner : List (Input C F T)

-- `Parsed<T>`, a function's name with its arguments
pub record Parsed (C F T : Type 0) : Type 0 where
  pub args : Args C F T
  pub fun : Option String

module _ {C F T : Type 0} where
  abbrev pub parsed_with : Args C F T → Parsed C F T
  parsed_with args = record { args = args; fun = none }

  abbrev pub parsed_with_fn : String → Args C F T → Parsed C F T
  parsed_with_fn fun args = record { args = args; fun = some fun }

  -- the `filter_map` of `Args::deferreds`
  unfoldable pub deferreds : List (Input C F T) → List C
  deferreds [] = []
  deferreds (deferred a ∷ r) = instruction_cid a ∷ deferreds r
  deferreds (_ ∷ r) = deferreds r

  -- the `filter_map` of `Args::links`
  unfoldable pub links : List (Input C F T) → List C
  links [] = []
  links (plain (link c) ∷ r) = c ∷ links r
  links (_ ∷ r) = links r

  module _ (into : T → Ipld C F) where
    -- `From<Input<T>> for Ipld`
    unfoldable pub input_to_ipld : Input C F T → Ipld C F
    input_to_ipld (plain x) = x
    input_to_ipld (deferred promise) = await_to_ipld promise
    input_to_ipld (arg a) = result_to_ipld into a

    inputs_to_items : List (Input C F T) → Items C F
    unfolding input_to_ipld
    inputs_to_items [] = nil
    inputs_to_items (x ∷ xs) = cons (input_to_ipld x) (inputs_to_items xs)

    -- `From<Args<T>> for Ipld`
    unfoldable pub args_to_ipld : Args C F T → Ipld C F
    unfolding inputs_to_items
    args_to_ipld args = list (inputs_to_items args.inner)

-- `if let Ok(invocation_result) = .. { Input::Arg(invocation_result) } else { Input::Ipld(ipld) }`
unfoldable pub plain_or_arg :
    {C F T : Type 0} → Ipld C F → Result (Error C F (Unit {0})) (InstructionResult T) → Input C F T
plain_or_arg x (ok r) = arg r
plain_or_arg x (err _) = plain x

-- the default of the `map_or`, and the value where the Ipld is no map
unfoldable pub input_of_plain : {C F T : Type 0} (from : Ipld C F → T) (x : Ipld C F) → Input C F T
unfolding plain_or_arg
input_of_plain from x = plain_or_arg x (result_of_ipld from x)

-- `BTreeMap::get_key_value`
abbrev pub get_key_value : {C F : Type 0} → String → Fields C F → Option (String × Ipld C F)
get_key_value k m = Option.map (λ v. (k, v)) (get k m)

-- `Option::or_else`
abbrev pub or_else {ℓ} : {A : Type ℓ} → Option A → Option A → Option A
or_else none o = o
or_else (some a) o = some a

-- `get_key_value(OK).or_else(.. ERR).or_else(.. PTR)`
unfoldable pub branch_entry : {C F : Type 0} → Fields C F → Option (String × Ipld C F)
branch_entry m =
    or_else (or_else (get_key_value ok_branch m) (get_key_value err_branch m))
      (get_key_value ptr_branch m)

-- the `if let .. else if let .. else` of one step of the fold
unfoldable pub arg_of_results :
    {C F T : Type 0}
    → Ipld C F
    → Result (Error C F (Unit {0})) (InstructionResult T)
    → Result (Error C F (Unit {0})) (Await C)
    → Input C F T
arg_of_results x (ok r) _ = arg r
arg_of_results x (err _) (ok a) = deferred a
arg_of_results x (err _) (err _) = plain x

module _ {C F P T : Type 0} (s : Serde C F P) (from : Ipld C F → T) where
  -- one step of the fold of `TryFrom<Ipld> for Args<T>`
  unfoldable pub arg_of_ipld : Ipld C F → Input C F T
  unfolding arg_of_results
  arg_of_ipld x = arg_of_results x (result_of_ipld from x) (await_of_ipld s x)

  unfoldable pub args_of_items : Items C F → List (Input C F T)
  unfolding arg_of_ipld
  args_of_items nil = []
  args_of_items (cons x xs) = arg_of_ipld x ∷ args_of_items xs

  -- `TryFrom<Ipld> for Args<T>`
  unfoldable pub args_of_ipld : Ipld C F → Result (Error C F T) (Args C F T)
  unfolding args_of_items
  args_of_ipld (list v) = ok (record { inner = args_of_items v })
  args_of_ipld x = err not_an_ipld_list

  -- the closure of the `map_or`
  unfoldable pub input_of_entry : String → Ipld C F → Result (Error C F String) (Input C F T)
  input_of_entry branch v = do
    p ← map_err of_unit (pointer_of_ipld s v)
    r ← ok_or (result branch) (invalid_discriminant branch)
    ok (deferred (record { instruction = p; result = r }))

  unfoldable pub input_of_branch :
      Ipld C F → Option (String × Ipld C F) → Result (Error C F String) (Input C F T)
  unfolding input_of_plain input_of_entry
  input_of_branch x none = ok (input_of_plain from x)
  input_of_branch x (some (branch, v)) = input_of_entry branch v

  unfoldable pub input_of_map :
      Ipld C F → Option (Fields C F) → Result (Error C F String) (Input C F T)
  unfolding input_of_branch branch_entry
  input_of_map x none = ok (input_of_plain from x)
  input_of_map x (some m) = input_of_branch x (branch_entry m)

  -- `TryFrom<Ipld> for Input<T>`
  unfoldable pub input_of_ipld : Ipld C F → Result (Error C F String) (Input C F T)
  unfolding input_of_map
  input_of_ipld x = input_of_map x (s.from_map x)
