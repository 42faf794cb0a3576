-- ===== src/Wasm/Value/Component.antt =====
-- What the conversions take from other crates (`D` stands for `Decimal`): wasmtime's checked constructors, the casts between
-- floats, base64, and the texts of CIDs and characters.
use homestar.Prelude.{ℕ, ◌≡◌, String, Option, none, some, List}
use homestar.Wasm.Value.{Val, Vals, ValType, ValTypes, list, tuple, cons, nil, ty}

pub data Version : Type 0 where
  v0 v1 : Version

pub record Component (C F G H V D : Type 0) : Type 0 where
  -- `List::new_val` and `Tuple::new_val`
  pub new_list : ValType H → Vals F G H V → Option (Val F G H V)
  pub new_tuple : ValTypes H → Vals F G H V → Option (Val F G H V)
  -- `v as f32`, `Decimal::from_f32`, and `to_f64` of the decimal
  pub as_f32 : F → G
  pub from_f32 : G → Option D
  pub to_f64 : D → Option F
  pub base64 : List ℕ → String
  pub version : C → Version
  pub to_base58 : C → Option String
  pub to_base32 : C → Option String
  pub cid_try_from : String → Option C
  pub char_to_string : ℕ → String

abbrev pub cid_text : {C F G H V D : Type 0} → Component C F G H V D → C → Version → Option String
cid_text w c v0 = w.to_base58 c
cid_text w c v1 = w.to_base32 c

abbrev pub AllHave : {F G H V : Type 0} → ValType H → Vals F G H V → Type 0
AllHave t nil = Unit
AllHave t (cons v vs) = (ty v ≡ t) × AllHave t vs

abbrev pub Have : {F G H V : Type 0} → ValTypes H → Vals F G H V → Type 0
Have ValTypes.end nil = Unit
Have (ValTypes.and t ts) (cons v vs) = (ty v ≡ t) × Have ts vs
Have ts vs = ⊥

-- What the crates state: wasmtime's constructors check the values against the type, and CIDs have
-- their texts.
pub record IsComponent {C F G H V D : Type 0} (w : Component C F G H V D) : Type 0 where
  pub list_some :
      (t : ValType H) (vs : Vals F G H V) → AllHave t vs → w.new_list t vs ≡ some (list t vs)
  pub list_only :
      (t : ValType H) (vs : Vals F G H V) (v : Val F G H V)
      → w.new_list t vs ≡ some v
      → (v ≡ list t vs) × AllHave t vs
  pub tuple_some :
      (ts : ValTypes H) (vs : Vals F G H V) → Have ts vs → w.new_tuple ts vs ≡ some (tuple ts vs)
  pub tuple_only :
      (ts : ValTypes H) (vs : Vals F G H V) (v : Val F G H V)
      → w.new_tuple ts vs ≡ some v
      → (v ≡ tuple ts vs) × Have ts vs
  -- the text of a CID parses back to it, and `null` is the text of none
  pub link_text :
      (c : C) → (t : String) × (cid_text w c (w.version c) ≡ some t) × (w.cid_try_from t ≡ some c)
  pub null_is_no_cid : w.cid_try_from "null" ≡ none
