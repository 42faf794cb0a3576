-- ===== src/Sample.antt =====
-- Concrete stand-ins for the code that the model takes as a parameter: identifiers, principals and
-- URLs that are their own texts, and a codec that maps every value to one identifier.
pub mod Wasm
pub mod Network
pub mod Queue
use homestar.Prelude.{
  ℕ, ◌^◌, ◌<◌, ◌≡◌, refl, ap, ◌↔◌, Bool, true, false, String, Option, none, some, List, [], ◌∷◌,
  ltb, if◌then◌else◌, arith, eq_iff,
}
use homestar.Prelude.Int.{pos}
use homestar.Prelude.Classes.{Eq}
use homestar.Runtime.Resources.{Resource, url, cid}
use homestar.Ipld.{Ipld, Fields, map, list, string, integer, link, to_items, of_items}
use mathlib.Core.List as List
use homestar.Ipld.Serde.{Serde, IsSerde}
use homestar.Foreign.{Foreign, IsForeign}
use text.Mathlib.Text.{◌==◌}

abbrev pub Value : Type 0
Value = Ipld String ℕ

abbrev read_map : {C : Type 0} → Ipld C ℕ → Option (Fields C ℕ)
read_map (map m) = some m
read_map x = none

abbrev read_cid : {C : Type 0} → Ipld C ℕ → Option C
read_cid (link c) = some c
read_cid x = none

abbrev read_string : {C : Type 0} → Ipld C ℕ → Option String
read_string (string t) = some t
read_string x = none

abbrev read_u64 : {C : Type 0} → Ipld C ℕ → Option ℕ
read_u64 (integer (pos n)) = if ltb n (2 ^ 64) then some n else none
read_u64 x = none

abbrev read_u32 : {C : Type 0} → Ipld C ℕ → Option ℕ
read_u32 (integer (pos n)) = if ltb n (2 ^ 32) then some n else none
read_u32 x = none

abbrev read_vec : {C : Type 0} → Ipld C ℕ → Option (List (Ipld C ℕ))
read_vec (list xs) = some (of_items xs)
read_vec x = none

abbrev cids_in : {C : Type 0} → List (Ipld C ℕ) → Option (List C)
cids_in [] = some []
cids_in (link c ∷ xs) = elim (cids_in xs) [ some cs ↦ some (c ∷ cs) | none ↦ none ]
cids_in (x ∷ xs) = none

abbrev read_cids : {C : Type 0} → Ipld C ℕ → Option (List C)
read_cids (list xs) = cids_in (of_items xs)
read_cids x = none

of_to_items : {C : Type 0} (xs : List (Ipld C ℕ)) → of_items (to_items xs) ≡ xs
of_to_items [] = refl
of_to_items (x ∷ xs) = rw (of_to_items xs) refl

cids_in_links :
    {C : Type 0} (cs : List C) → cids_in (of_items (to_items (List.map link cs))) ≡ some cs
cids_in_links [] = refl
cids_in_links (c ∷ cs) = rw (cids_in_links cs) refl

abbrev pub serde : {C : Type 0} → Serde C ℕ String
serde = record {
  from_map = read_map;
  from_cid = read_cid;
  from_string = read_string;
  from_u64 = read_u64;
  from_u32 = read_u32;
  from_vec = read_vec;
  from_cids = read_cids;
  from_principal = read_string;
}

read_map_only : {C : Type 0} (x : Ipld C ℕ) (m : Fields C ℕ) → read_map x ≡ some m → x ≡ map m
read_map_only (map n) m h = cc
read_map_only _ m h = cc

read_cid_only : {C : Type 0} (x : Ipld C ℕ) (c : C) → read_cid x ≡ some c → x ≡ link c
read_cid_only (link d) c h = cc
read_cid_only _ c h = cc

read_string_only : {C : Type 0} (x : Ipld C ℕ) (t : String) → read_string x ≡ some t → x ≡ string t
read_string_only (string d) t h = cc
read_string_only _ t h = cc

read_u64_only :
    {C : Type 0} (x : Ipld C ℕ) (n : ℕ) → read_u64 x ≡ some n → (x ≡ integer (pos n)) × (n < 2 ^ 64)
read_u64_only (integer (pos k)) n h = ground arith
read_u64_only _ n h = cc

pub serde-IsSerde : {C : Type 0} → IsSerde (serde {C = C})
serde-IsSerde = record {
  map_some = λ m. refl;
  map_only = read_map_only;
  cid_some = λ c. refl;
  cid_only = read_cid_only;
  string_some = λ t. refl;
  string_only = read_string_only;
  u32_some = λ n h. ground arith;
  vec_some = λ xs. rw (of_to_items xs) refl;
  cids_some = cids_in_links;
  u64_some = λ n h. ground arith;
  u64_only = read_u64_only;
}

abbrev pub foreign_code : Foreign String ℕ String String
foreign_code = record {
  serde = serde;
  principal_to_string = λ p. p;
  principal_from_str = λ t. some t;
  url_to_string = λ u. u;
  url_parse = λ t. some t;
  cid_to_string = λ c. c;
  cid_from_str = λ t. some t;
  cid_to_base32 = λ c. some c;
  encode = λ x. some [];
  digest_v1 = λ b. "bafysample";
  trim_to_lowercase = λ t. t;
}

pub foreign_code-IsForeign : IsForeign foreign_code
foreign_code-IsForeign = record {
  serde = serde-IsSerde;
  principal_text = λ p. refl;
  url_text = λ u. refl;
  cid_text = λ c. refl;
}

abbrev pub same_text : Eq String
same_text = record { beq = λ a b. a == b; beq_iff = λ a b. eq_iff a b }

abbrev pub same_rsc : Resource String String → Resource String String → Bool
same_rsc (url a) (url b) = a == b
same_rsc (cid a) (cid b) = a == b
same_rsc _ _ = false

pub same_rsc_iff : (r q : Resource String String) → (same_rsc r q ≡ true) ↔ (r ≡ q)
same_rsc_iff (url a) (url b) = (λ h. ap url ((eq_iff a b).0 h), λ h. (eq_iff a b).1 (cc h))
same_rsc_iff (cid a) (cid b) = (λ h. ap cid ((eq_iff a b).0 h), λ h. (eq_iff a b).1 (cc h))
same_rsc_iff (url a) (cid b) = (λ h. cc h, λ h. cc h)
same_rsc_iff (cid a) (url b) = (λ h. cc h, λ h. cc h)

abbrev pub same_resource : Eq (Resource String String)
same_resource = record { beq = same_rsc; beq_iff = same_rsc_iff }
