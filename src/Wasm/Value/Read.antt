-- ===== src/Wasm/Value/Read.antt =====
-- `RuntimeVal::try_from` of homestar-wasm/src/wasmtime/ipld.rs: a value of Ipld as a value of a
-- component's type. (Its growth of the stack is not modelled.)
pub mod Panics
pub mod Fits
pub mod Laws
pub mod Types
use homestar.Prelude.{
  ℕ, ◌^◌, String, Bool, true, false, Option, none, some, List, [], ◌∷◌, ◌++◌, ltb, if◌then◌else◌,
}
use homestar.Prelude.Int.{ℤ, pos, negsuc, pos_part}
use homestar.Result.{Result, ok, err, ok_or, ◌>>=◌}
use homestar.Ipld.{Ipld, Items, Fields}
use homestar.Wasm.Value.{
  Val, Vals, ValType, ValTypes, InterfaceType, RuntimeVal, Failure, InterpreterError, new,
  new_with_tags, Tags, inner, raised, panicked, ipld_to_int, wit_to_ipld, wit_type, cid_encode,
  type_mismatch, map_type,
}
use homestar.Wasm.Value.Component.{Component, cid_text}

-- `v.try_into()` of an `i128`: whether it fits an unsigned or a signed integer below `bound`
abbrev pub in_unsigned : ℕ → ℤ → Bool
in_unsigned bound (pos n) = ltb n bound
in_unsigned bound (negsuc n) = false

abbrev pub in_signed : ℕ → ℤ → Bool
in_signed bound (pos n) = ltb n bound
in_signed bound (negsuc n) = ltb n bound

module _ {C F G H V : Type 0} where
  abbrev pub cast : Bool → Val F G H V → Result (Failure C F) (RuntimeVal F G H V)
  cast true v = ok (new v)
  cast false v = err (raised ipld_to_int)

  abbrev pub null_of : Option (ValType H) → Result (Failure C F) (RuntimeVal F G H V)
  null_of none = ok (new (Val.string "null"))
  null_of (some ValType.string) = ok (new (Val.string "null"))
  null_of (some t) = err (raised (wit_to_ipld Ipld.null))

  abbrev pub bool_of : Bool → Option (ValType H) → Result (Failure C F) (RuntimeVal F G H V)
  bool_of v none = ok (new (Val.bool v))
  bool_of v (some ValType.bool) = ok (new (Val.bool v))
  bool_of v (some t) = err (raised (wit_to_ipld (Ipld.bool v)))

  unfoldable pub integer_of : ℤ → Option (ValType H) → Result (Failure C F) (RuntimeVal F G H V)
  integer_of v (some ValType.u8) = cast (in_unsigned (2 ^ 8) v) (Val.u8 (pos_part v))
  integer_of v (some ValType.u16) = cast (in_unsigned (2 ^ 16) v) (Val.u16 (pos_part v))
  integer_of v (some ValType.u32) = cast (in_unsigned (2 ^ 32) v) (Val.u32 (pos_part v))
  integer_of v (some ValType.u64) = cast (in_unsigned (2 ^ 64) v) (Val.u64 (pos_part v))
  integer_of v (some ValType.s8) = cast (in_signed (2 ^ 7) v) (Val.s8 v)
  integer_of v (some ValType.s16) = cast (in_signed (2 ^ 15) v) (Val.s16 v)
  integer_of v (some ValType.s32) = cast (in_signed (2 ^ 31) v) (Val.s32 v)
  integer_of v (some ValType.s64) = cast (in_signed (2 ^ 63) v) (Val.s64 v)
  integer_of v none = cast (in_signed (2 ^ 63) v) (Val.s64 v)
  integer_of v (some t) = err (raised (wit_to_ipld (Ipld.integer v)))

-- the `matches!(interface_ty.inner(), Some(Type::List(_)))` of bytes and of lists
abbrev pub if_list {ℓ} : {H : Type 0} {R : Type ℓ} → Option (ValType H) → (ValType H → R) → R → R
if_list (some (ValType.list t)) then_do else_do = then_do t
if_list _ then_do else_do = else_do

-- `tuple_inst.types().nth(1)`
abbrev pub second : {H : Type 0} → ValTypes H → Option (ValType H)
second (ValTypes.and t (ValTypes.and u ts)) = some u
second ts = none

-- The types that a map takes from its own: the tuple's, and that of the values. `then_some` takes
-- its argument by value, so `unwrap_list` and `unwrap_tuple` run, and panic, on any other type.
unfoldable pub map_types :
    {C F H : Type 0} → Option (ValType H) → Result (Failure C F) (ValTypes H × ValType H)
map_types none = err (raised type_mismatch)
map_types (some (ValType.list (ValType.tuple ts))) = do
  t ← ok_or (second ts) (raised map_type)
  ok (ts, t)
map_types (some t) = err panicked

abbrev pub of_bytes : {F G H V : Type 0} → List ℕ → Vals F G H V
of_bytes [] = Vals.nil
of_bytes (b ∷ bs) = Vals.cons (Val.u8 b) (of_bytes bs)

module _ {C F G H V D : Type 0} (w : Component C F G H V D) where
  abbrev pub new_list : ValType H → Vals F G H V → Result (Failure C F) (Val F G H V)
  new_list t vs = ok_or (w.new_list t vs) (raised wit_type)

  abbrev pub new_tuple : ValTypes H → Vals F G H V → Result (Failure C F) (Val F G H V)
  new_tuple ts vs = ok_or (w.new_tuple ts vs) (raised wit_type)

  abbrev pub float_of : F → Option (ValType H) → Val F G H V
  float_of v (some ValType.float32) = Val.float32 (w.as_f32 v)
  float_of v t = Val.float64 v

  unfoldable pub link_of : C → Result (Failure C F) (RuntimeVal F G H V)
  link_of c = do t ← ok_or (cid_text w c (w.version c)) (raised cid_encode); ok (new (Val.string t))

  unfoldable pub bytes_of : List ℕ → Option (ValType H) → Result (Failure C F) (RuntimeVal F G H V)
  bytes_of b t =
      if_list t (λ elem. do v ← new_list elem (of_bytes b); ok (new v))
        (ok (new (Val.string (w.base64 b))))

  unfoldable mutual
    unfolding integer_of link_of bytes_of map_types

    pub try_from : Ipld C F → InterfaceType H → Result (Failure C F) (RuntimeVal F G H V)
    try_from Ipld.null t = null_of (inner t)
    try_from (Ipld.bool v) t = bool_of v (inner t)
    try_from (Ipld.integer v) t = integer_of v (inner t)
    try_from (Ipld.float v) t = ok (new (float_of v (inner t)))
    try_from (Ipld.string v) t = ok (new (Val.string v))
    try_from (Ipld.bytes v) t = bytes_of v (inner t)
    try_from (Ipld.link v) t = link_of v
    try_from (Ipld.list v) t =
        if_list (inner t) (λ elem. do vs ← try_from_items v elem; l ← new_list elem vs; ok (new l))
          (try_from_first v t)
    try_from (Ipld.map v) t = do
      (ts, elem) ← map_types (inner t)
      (vs, stack) ← try_from_fields v ts elem []
      l ← new_list (ValType.tuple ts) vs
      ok (new_with_tags l stack)

    -- the `try_fold` over a list
    pub try_from_items : Items C F → ValType H → Result (Failure C F) (Vals F G H V)
    try_from_items Items.nil elem = ok Vals.nil
    try_from_items (Items.cons x xs) elem = do
      r ← try_from x (InterfaceType.type elem)
      vs ← try_from_items xs elem
      ok (Vals.cons r.val vs)

    -- the `fold_while`, which ends with the first element
    pub try_from_first : Items C F → InterfaceType H → Result (Failure C F) (RuntimeVal F G H V)
    try_from_first Items.nil t = ok (new (Val.bool false))
    try_from_first (Items.cons x xs) t = try_from x t

    -- the `try_fold` over a map; the tags of a value are appended to those before it
    pub try_from_fields :
        Fields C F → ValTypes H → ValType H → Tags → Result (Failure C F) (Vals F G H V × Tags)
    try_from_fields Fields.end ts elem stack = ok (Vals.nil, stack)
    try_from_fields (Fields.field key x m) ts elem stack = do
      r ← try_from x (InterfaceType.type_ref elem)
      t ← new_tuple ts (Vals.cons (Val.string key) (Vals.cons r.val Vals.nil))
      (vs, all_tags) ← try_from_fields m ts elem (stack ++ r.tags)
      ok (Vals.cons t vs, all_tags)
