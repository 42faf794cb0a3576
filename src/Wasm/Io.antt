-- ===== src/Wasm/Io.antt =====
-- homestar-wasm/src/io.rs: the arguments and outputs of a wasm function, and the parsing of an input.
pub mod Laws
use homestar.Prelude.{String, Option, some, none, List, [], ◌∷◌}
use homestar.Result.{Result, ok, err, ok_or, map_err, ◌>>=◌}
use homestar.Ipld.{Ipld, Items, Fields, get}
use homestar.Ipld.Serde.{Serde}
use homestar.Core.Error.{Error, missing_field}
use homestar.Core.Input.Defs.{Input, plain, Args, Parsed, parsed_with_fn, args_of_ipld}
use homestar.Wasm.Value.{Val, Vals, InterpreterError}
use homestar.Wasm.Value.Component.{Component}
use homestar.Wasm.Value.Write.{to_ipld}

pub data Arg (C F G H V : Type 0) : Type 0 where
  ipld : Ipld C F → Arg C F G H V
  value : Val F G H V → Arg C F G H V

-- `homestar_core::workflow::error::InputParseError`
pub data InputParseError (C F T : Type 0) : Type 0 where
  from_ipld : InputParseError C F T
  ipld_to_args : Args C F T → InputParseError C F T
  unexpected_task_input : Input C F T → InputParseError C F T
  workflow : Error C F T → InputParseError C F T

pub data Output (F G H V : Type 0) : Type 0 where
  value : Val F G H V → Output F G H V
  values : List (Val F G H V) → Output F G H V
  void : Output F G H V

-- `Output::take`
unfoldable pub take_output : {F G H V : Type 0} → Output F G H V → Option (Val F G H V)
take_output (Output.value v) = some v
take_output (Output.values []) = none
take_output (Output.values (v ∷ vs)) = some v
take_output Output.void = none

abbrev pub func_key : String
func_key = "func"

abbrev pub args_key : String
args_key = "args"

abbrev pub to_workflow : {C F T : Type 0} → Error C F T → InputParseError C F T
to_workflow e = workflow e

module _ {C F P T : Type 0} (s : Serde C F P) (from : Ipld C F → T) where
  -- `Parse for Input<Arg>`
  unfoldable pub parse : Input C F T → Result (InputParseError C F T) (Parsed C F T)
  unfolding get
  parse (plain x) = do
    m ← ok_or (s.from_map x) from_ipld
    func ← ok_or (get func_key m) (workflow (missing_field func_key))
    wasm_args ← ok_or (get args_key m) (workflow (missing_field args_key))
    args ← map_err to_workflow (args_of_ipld s from wasm_args)
    name ← ok_or (s.from_string func) from_ipld
    ok (parsed_with_fn name args)
  parse input = err (unexpected_task_input input)

-- `if let Ok(ipld) = .. { ipld } else { Ipld::Null }`
abbrev pub or_null : {C F : Type 0} → Result (InterpreterError C F) (Ipld C F) → Ipld C F
or_null (ok x) = x
or_null (err e) = Ipld.null

module _ {C F G H V D : Type 0} (w : Component C F G H V D) where
  -- `From<Arg> for Ipld`; `From<Ipld> for Arg` is the constructor `ipld`
  unfoldable pub arg_to_ipld : Arg C F G H V → Ipld C F
  arg_to_ipld (Arg.ipld x) = x
  arg_to_ipld (Arg.value v) = or_null (to_ipld w v)

  unfoldable pub outputs_to_items : List (Val F G H V) → Result (InterpreterError C F) (Items C F)
  outputs_to_items [] = ok Items.nil
  outputs_to_items (v ∷ vs) = do x ← to_ipld w v; xs ← outputs_to_items vs; ok (Items.cons x xs)

  -- `TryFrom<Output> for Ipld`
  unfoldable pub output_to_ipld : Output F G H V → Result (InterpreterError C F) (Ipld C F)
  unfolding outputs_to_items
  output_to_ipld (Output.value v) = to_ipld w v
  output_to_ipld (Output.values vs) = do xs ← outputs_to_items vs; ok (Ipld.list xs)
  output_to_ipld Output.void = ok Ipld.null
