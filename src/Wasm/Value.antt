-- ===== src/Wasm/Value.antt =====
-- The values and types of the component model as homestar-wasm/src/wasmtime/ipld.rs reads them, its
-- `InterfaceType`, `RuntimeVal` and `Tags`, and the errors of homestar-wasm/src/error.rs.
pub mod Component
pub mod Read
pub mod Write
use homestar.Prelude.{ℕ, String, Bool, Option, none, some, List, [], ◌∷◌}
use homestar.Prelude.Int.{ℤ}
use homestar.Result.{Result, ok, err, ok_or}
use homestar.Ipld.{Ipld}

-- `wasmtime::component::Type`. `H` stands for the handles of the types that the code does not take
-- apart; those of records are told from the rest.
mutual
  pub data ValType (H : Type 0) : Type 0 where
    bool s8 u8 s16 u16 s32 u32 s64 u64 float32 float64 char string : ValType H
    list : ValType H → ValType H
    tuple : ValTypes H → ValType H
    rec other : H → ValType H

  pub data ValTypes (H : Type 0) : Type 0 where
    end : ValTypes H
    and : ValType H → ValTypes H → ValTypes H

-- `wasmtime::component::Val`; a list and a tuple carry their type. `F` stands for `f64`, `G` for
-- `f32` and `V` for the values that the code does not take apart.
mutual
  pub data Val (F G H V : Type 0) : Type 0 where
    bool : Bool → Val F G H V
    s8 s16 s32 s64 : ℤ → Val F G H V
    u8 u16 u32 u64 : ℕ → Val F G H V
    float32 : G → Val F G H V
    float64 : F → Val F G H V
    char : ℕ → Val F G H V
    string : String → Val F G H V
    list : ValType H → Vals F G H V → Val F G H V
    tuple : ValTypes H → Vals F G H V → Val F G H V
    other : ValType H → V → Val F G H V

  pub data Vals (F G H V : Type 0) : Type 0 where
    nil : Vals F G H V
    cons : Val F G H V → Vals F G H V → Vals F G H V

-- `Val::ty`
unfoldable pub ty : {F G H V : Type 0} → Val F G H V → ValType H
ty (bool v) = bool
ty (s8 v) = s8
ty (u8 v) = u8
ty (s16 v) = s16
ty (u16 v) = u16
ty (s32 v) = s32
ty (u32 v) = u32
ty (s64 v) = s64
ty (u64 v) = u64
ty (float32 v) = float32
ty (float64 v) = float64
ty (char v) = char
ty (string v) = string
ty (list t vs) = list t
ty (tuple ts vs) = tuple ts
ty (other t v) = t

-- `Type` and `TypeRef` hold a type, by value and by reference.
pub data InterfaceType (H : Type 0) : Type 0 where
  any : InterfaceType H
  type type_ref : ValType H → InterfaceType H

abbrev pub inner : {H : Type 0} → InterfaceType H → Option (ValType H)
inner (type t) = some t
inner (type_ref t) = some t
inner any = none

-- `From<&Type> for InterfaceType`
unfoldable pub interface_of : {H : Type 0} → ValType H → InterfaceType H
interface_of (list t) = type_ref (list t)
interface_of (rec h) = type_ref (rec h)
interface_of s8 = type_ref s8
interface_of s16 = type_ref s16
interface_of s32 = type_ref s32
interface_of s64 = type_ref s64
interface_of u8 = type_ref u8
interface_of u16 = type_ref u16
interface_of u32 = type_ref u32
interface_of u64 = type_ref u64
interface_of float32 = type_ref float32
interface_of float64 = type_ref float64
interface_of t = any

-- What a variant wraps for its message alone is left out.
pub data InterpreterError (C F : Type 0) : Type 0 where
  cid_encode decimal_to_float float_to_decimal from_ipld ipld_to_int : InterpreterError C F
  ipld_to_wit map_type tags type_mismatch wit_type : InterpreterError C F
  wit_to_ipld : Ipld C F → InterpreterError C F

-- An error that is returned, or a panic.
pub data Failure (C F : Type 0) : Type 0 where
  raised : InterpreterError C F → Failure C F
  panicked : Failure C F

-- `Tags`: a new stack for each value, which no other value shares, so a borrow of it succeeds.
abbrev pub Tags : Type 0
Tags = List String

pub record RuntimeVal (F G H V : Type 0) : Type 0 where
  pub val : Val F G H V
  pub tags : Tags

abbrev pub new : {F G H V : Type 0} → Val F G H V → RuntimeVal F G H V
new v = record { val = v; tags = [] }

abbrev pub new_with_tags : {F G H V : Type 0} → Val F G H V → Tags → RuntimeVal F G H V
new_with_tags v stack = record { val = v; tags = stack }
