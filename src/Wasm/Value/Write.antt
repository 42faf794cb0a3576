-- ===== src/Wasm/Value/Write.antt =====
-- `TryFrom<RuntimeVal> for Ipld` of homestar-wasm/src/wasmtime/ipld.rs: a value of a component as a
-- value of Ipld. (The tags of a value reach no result.)
use text.Mathlib.Text.{◌==◌}
use homestar.Prelude.{ℕ, String, none, some, List, [], ◌∷◌, if◌then◌else◌}
use homestar.Prelude.Int.{pos}
use homestar.Result.{Result, ok, err, ok_or, ◌>>=◌}
use homestar.Ipld.{Ipld, Items, Fields, insert}
use homestar.Wasm.Value.{
  Val, Vals, ValType, InterpreterError, float_to_decimal, decimal_to_float, type_mismatch,
  ipld_to_wit,
}
use homestar.Wasm.Value.Component.{Component}

-- the three cases of a list: of tuples, with a `u8` in front, or any other; the last is empty, or not
unfoldable pub list_to {ℓ} :
    {F G H V : Type 0} {R : Type ℓ} → ValType H → Vals F G H V → R → R → R → R
list_to (ValType.tuple ts) vs as_map as_bytes as_list = as_map
list_to t (Vals.cons (Val.u8 b) vs) as_map as_bytes as_list = as_bytes
list_to t vs as_map as_bytes as_list = as_list

unfoldable pub bytes_in :
    {C F G H V : Type 0} → Vals F G H V → Result (InterpreterError C F) (List ℕ)
bytes_in Vals.nil = ok []
bytes_in (Vals.cons (Val.u8 b) vs) = do bs ← bytes_in vs; ok (b ∷ bs)
bytes_in (Vals.cons v vs) = err type_mismatch

module _ {C F G H V D : Type 0} (w : Component C F G H V D) where
  unfoldable pub text_to : String → Ipld C F
  text_to s =
      if s == "null"
      then Ipld.null
      else elim (w.cid_try_from s) [ some c ↦ Ipld.link c | none ↦ Ipld.string s ]

  unfoldable mutual
    unfolding text_to list_to bytes_in insert

    pub to_ipld : Val F G H V → Result (InterpreterError C F) (Ipld C F)
    to_ipld (Val.char c) = ok (Ipld.string (w.char_to_string c))
    to_ipld (Val.string s) = ok (text_to s)
    to_ipld (Val.bool v) = ok (Ipld.bool v)
    to_ipld (Val.u8 v) = ok (Ipld.integer (pos v))
    to_ipld (Val.u16 v) = ok (Ipld.integer (pos v))
    to_ipld (Val.u32 v) = ok (Ipld.integer (pos v))
    to_ipld (Val.u64 v) = ok (Ipld.integer (pos v))
    to_ipld (Val.s8 v) = ok (Ipld.integer v)
    to_ipld (Val.s16 v) = ok (Ipld.integer v)
    to_ipld (Val.s32 v) = ok (Ipld.integer v)
    to_ipld (Val.s64 v) = ok (Ipld.integer v)
    to_ipld (Val.float32 v) = do
      d ← ok_or (w.from_f32 v) float_to_decimal
      x ← ok_or (w.to_f64 d) decimal_to_float
      ok (Ipld.float x)
    to_ipld (Val.float64 v) = ok (Ipld.float v)
    to_ipld (Val.list t vs) =
        list_to t vs (do m ← to_fields vs Fields.end; ok (Ipld.map m))
          (do bs ← bytes_in vs; ok (Ipld.bytes bs)) (do xs ← to_items vs; ok (Ipld.list xs))
    to_ipld (Val.tuple ts vs) = err ipld_to_wit
    to_ipld (Val.other t v) = err ipld_to_wit

    pub to_items : Vals F G H V → Result (InterpreterError C F) (Items C F)
    to_items Vals.nil = ok Items.nil
    to_items (Vals.cons v vs) = do x ← to_ipld v; xs ← to_items vs; ok (Items.cons x xs)

    -- the fold over a list of tuples, from the entries that were inserted before
    pub to_fields : Vals F G H V → Fields C F → Result (InterpreterError C F) (Fields C F)
    to_fields Vals.nil acc = ok acc
    to_fields (Vals.cons (Val.tuple ts (Vals.cons (Val.string s) (Vals.cons v Vals.nil))) vs) acc =
        do x ← to_ipld v; to_fields vs (insert s x acc)
    to_fields (Vals.cons v vs) acc = err type_mismatch
