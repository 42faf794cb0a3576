-- ===== src/Sample/Wasm.antt =====
-- A concrete stand-in for the crates of wasm values: lists and tuples are made of values that have
-- the type, floats are numbers, and one text is that of a CID.
use homestar.Prelude.{ℕ, ◌≡◌, refl, String, Option, none, some, if◌then◌else◌}
use text.Mathlib.Text.{◌==◌}
use homestar.Wasm.Value.{Val, Vals, ValType, ValTypes, ty}
use homestar.Wasm.Value.Component.{Component, IsComponent, v1, AllHave, Have}

abbrev dec_and : {A B : Type 0} → Dec A → Dec B → Dec (A × B)
dec_and (yes a) (yes b) = yes (a, b)
dec_and (no n) d = no (λ p. n p.0)
dec_and (yes a) (no n) = no (λ p. n p.1)

pub type_discrete : Discrete (ValType (Unit {0}))
type_discrete = hlevel

abbrev pub Value : Type 0
Value = Val ℕ ℕ (Unit {0}) (Unit {0})

abbrev pub Values : Type 0
Values = Vals ℕ ℕ (Unit {0}) (Unit {0})

abbrev all_have : (t : ValType (Unit {0})) (vs : Values) → Dec (AllHave t vs)
all_have t Vals.nil = yes tt
all_have t (Vals.cons v vs) = dec_and (type_discrete (ty v) t) (all_have t vs)

abbrev have : (ts : ValTypes (Unit {0})) (vs : Values) → Dec (Have ts vs)
have ValTypes.end Vals.nil = yes tt
have (ValTypes.and t ts) (Vals.cons v vs) = dec_and (type_discrete (ty v) t) (have ts vs)
have ValTypes.end (Vals.cons v vs) = no (λ h. h)
have (ValTypes.and t ts) Vals.nil = no (λ h. h)

abbrev made : {A B : Type 0} → Dec A → B → Option B
made (yes a) b = some b
made (no n) b = none

made_of : {A B : Type 0} (d : Dec A) (b : B) → A → made d b ≡ some b
made_of (yes a) b h = refl
made_of (no n) b h = absurd (n h)

made_only : {A B : Type 0} (d : Dec A) (b c : B) → made d b ≡ some c → (c ≡ b) × A
made_only (yes a) b c h = (cc h, a)
made_only (no n) b c h = absurd (cc h)

-- the crates, with the texts of CIDs
abbrev pub component :
    {C : Type 0}
    → (C → String)
    → (String → Option C)
    → Component C ℕ ℕ (Unit {0}) (Unit {0}) (Unit {0})
component text read = record {
  new_list = λ t vs. made (all_have t vs) (Val.list t vs);
  new_tuple = λ ts vs. made (have ts vs) (Val.tuple ts vs);
  as_f32 = λ x. x;
  from_f32 = λ x. some tt;
  to_f64 = λ d. some 0;
  base64 = λ bytes. "";
  version = λ c. v1;
  to_base58 = λ c. none;
  to_base32 = λ c. some (text c);
  cid_try_from = read;
  char_to_string = λ n. "";
}

abbrev read_unit : String → Option (Unit {0})
read_unit t = if t == "bafycid" then some tt else none

abbrev pub one_cid : Component (Unit {0}) ℕ ℕ (Unit {0}) (Unit {0}) (Unit {0})
one_cid = component (λ c. "bafycid") read_unit

pub one_cid-IsComponent : IsComponent one_cid
one_cid-IsComponent = record {
  list_some = λ t vs h. made_of (all_have t vs) (Val.list t vs) h;
  list_only = λ t vs v h. made_only (all_have t vs) (Val.list t vs) v h;
  tuple_some = λ ts vs h. made_of (have ts vs) (Val.tuple ts vs) h;
  tuple_only = λ ts vs v h. made_only (have ts vs) (Val.tuple ts vs) v h;
  link_text = λ c. ("bafycid", refl, refl);
  null_is_no_cid = refl;
}
