-- ===== src/Wasm/Value/Read/Fits.antt =====
-- Which values of Ipld a type holds without a loss.
use text.Mathlib.Text.{◌==◌}
use homestar.Prelude.{◌^◌, ◌≡◌, Bool, true, false, none, ◌∷◌}
use homestar.Prelude.Int.{ℤ}
use homestar.Result.{ok}
use homestar.Ipld.{Ipld, Items, Fields}
use homestar.Ipld.Order.{IsSorted}
use homestar.Wasm.Value.{Val, ValType, ValTypes, InterfaceType, new, ty}
use homestar.Wasm.Value.Component.{Component}
use homestar.Wasm.Value.Read.{in_signed, in_unsigned, try_from}
use homestar.Wasm.Value.Write.{to_ipld}

-- The tuples that a map's entries become.
abbrev pub entry_types : {H : Type 0} → ValType H → ValTypes H
entry_types t = ValTypes.and ValType.string (ValTypes.and t ValTypes.end)

abbrev pub int_fits : {H : Type 0} → ValType H → ℤ → Bool
int_fits ValType.u8 v = in_unsigned (2 ^ 8) v
int_fits ValType.u16 v = in_unsigned (2 ^ 16) v
int_fits ValType.u32 v = in_unsigned (2 ^ 32) v
int_fits ValType.u64 v = in_unsigned (2 ^ 64) v
int_fits ValType.s8 v = in_signed (2 ^ 7) v
int_fits ValType.s16 v = in_signed (2 ^ 15) v
int_fits ValType.s32 v = in_signed (2 ^ 31) v
int_fits ValType.s64 v = in_signed (2 ^ 63) v
int_fits t v = false

-- A list of these is neither a map nor bytes.
abbrev pub IsElement : {H : Type 0} → ValType H → Type 0
IsElement ValType.u8 = ⊥
IsElement (ValType.tuple ts) = ⊥
IsElement t = Unit

module _ {C F G H V D : Type 0} (w : Component C F G H V D) where
  -- The values that a type holds without a loss. Texts are neither `null` nor a CID, bytes are not
  -- empty, and maps are lists of pairs of a text and a value.
  abbrev mutual
    pub Fits : ValType H → Ipld C F → Type 0
    Fits ValType.string Ipld.null = Unit
    Fits ValType.string (Ipld.string s) = ((s == "null") ≡ false) × (w.cid_try_from s ≡ none)
    Fits ValType.string (Ipld.link c) = Unit
    Fits ValType.bool (Ipld.bool v) = Unit
    Fits ValType.float64 (Ipld.float v) = Unit
    Fits t (Ipld.integer v) = int_fits t v ≡ true
    Fits (ValType.list ValType.u8) (Ipld.bytes (b ∷ bs)) = Unit
    Fits (ValType.list t) (Ipld.list xs) = IsElement t × FitItems t xs
    Fits (ValType.list (ValType.tuple (ValTypes.and ValType.string (ValTypes.and t ValTypes.end))))
          (Ipld.map m) =
        IsSorted m × FitFields t m
    Fits t x = ⊥

    pub FitItems : ValType H → Items C F → Type 0
    FitItems t Items.nil = Unit
    FitItems t (Items.cons x xs) = Fits t x × FitItems t xs

    pub FitFields : ValType H → Fields C F → Type 0
    FitFields t Fields.end = Unit
    FitFields t (Fields.field k x m) = Fits t x × FitFields t m

  -- `x` is read at type `t` as a value of that type, which is written as `x` again.
  abbrev pub Passes : ValType H → Ipld C F → Type 0
  Passes t x =
      (v : Val F G H V) × (try_from w x (InterfaceType.type t) ≡ ok (new v))
      × (ty v ≡ t)
      × (to_ipld w v ≡ ok x)
