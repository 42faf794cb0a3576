-- ===== src/Core/Pointer.antt =====
-- homestar-core/src/workflow/pointer.rs: content-addressed pointers and awaited promises.
pub mod Laws
use text.Mathlib.Text.{◌==◌}
use homestar.Prelude.{String, Option, none, some, [], ◌∷◌, if◌then◌else◌}
use homestar.Result.{Result, ok, err, ok_or, ◌>>=◌}
use homestar.Ipld.{Ipld, Fields, map, link, field, end, from_list}
use homestar.Ipld.Serde.{Serde}
use homestar.Core.Error.{Error, from_ipld, condition_not_met}

abbrev pub ok_branch : String
ok_branch = "await/ok"

abbrev pub err_branch : String
err_branch = "await/error"

abbrev pub ptr_branch : String
ptr_branch = "await/*"

pub data AwaitResult : Type 0 where
  ok_result error_result ptr_result : AwaitResult

abbrev pub branch : AwaitResult → String
branch ok_result = ok_branch
branch error_result = err_branch
branch ptr_result = ptr_branch

-- `AwaitResult::result`, derived by enum_assoc from the attributes on the variants.
unfoldable pub result : String → Option AwaitResult
result s =
    if s == ok_branch
    then some ok_result
    else if s == err_branch
    then some error_result
    else if s == ptr_branch
    then some ptr_result
    else none

-- `struct Pointer(Cid)`
pub record Pointer (C : Type 0) : Type 0 where
  pub cid : C

abbrev pub new : {C : Type 0} → C → Pointer C
new c = record { cid = c }

pub record Await (C : Type 0) : Type 0 where
  pub instruction : Pointer C
  pub result : AwaitResult

abbrev pub instruction_cid : {C : Type 0} → Await C → C
instruction_cid a = a.instruction.cid

module _ {C F : Type 0} where
  -- `From<Pointer> for Ipld`
  abbrev pub pointer_to_ipld : Pointer C → Ipld C F
  pointer_to_ipld p = link p.cid

  -- `From<Await> for Ipld`
  unfoldable pub await_to_ipld : Await C → Ipld C F
  unfolding from_list
  await_to_ipld a = map (from_list ((branch a.result, pointer_to_ipld a.instruction) ∷ []))

-- the `match key.as_str()` of `TryFrom<Ipld> for Await`
abbrev pub await_result_of_key : String → AwaitResult
await_result_of_key key =
    if key == ok_branch then ok_result else if key == err_branch then error_result else ptr_result

module _ {C F P : Type 0} (s : Serde C F P) where
  -- `TryFrom<Ipld> for Pointer`
  unfoldable pub pointer_of_ipld : Ipld C F → Result (Error C F (Unit {0})) (Pointer C)
  pointer_of_ipld x = do c ← ok_or (s.from_cid x) from_ipld; ok (new c)

  -- what follows `ensure!(map.len() == 1, ..)`: the one entry is taken apart
  await_of_fields : Fields C F → Result (Error C F (Unit {0})) (Await C)
  unfolding pointer_of_ipld
  await_of_fields (field key value end) = do
    p ← pointer_of_ipld value
    ok (record { instruction = p; result = await_result_of_key key })
  await_of_fields m = err (condition_not_met "await promise must jave only a single key ain a map")

  -- `TryFrom<Ipld> for Await`
  unfoldable pub await_of_ipld : Ipld C F → Result (Error C F (Unit {0})) (Await C)
  unfolding await_of_fields
  await_of_ipld x = do m ← ok_or (s.from_map x) from_ipld; await_of_fields m
