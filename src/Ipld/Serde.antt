-- ===== src/Ipld/Serde.antt =====
-- `libipld::serde::from_ipld` at the types at which the code calls it. The crate is not part of the
-- repository, so its functions are the fields of a record, with the documented behaviour that the
-- code relies on: each reads its own kind of value and refuses every other.
use homestar.Prelude.{ℕ, ◌^◌, ◌<◌, ◌≡◌, String, Option, some, List}
use mathlib.Core.List as List
use homestar.Prelude.Int.{pos}
use homestar.Ipld.{Ipld, Fields, map, list, string, integer, link, to_items}

-- `from_ipld::<T>(ipld).ok()`. `P` stands for `ucan::ipld::Principle`.
pub record Serde (C F P : Type 0) : Type 0 where
  pub from_map : Ipld C F → Option (Fields C F)
  pub from_cid : Ipld C F → Option C
  pub from_string : Ipld C F → Option String
  pub from_u64 : Ipld C F → Option ℕ
  pub from_u32 : Ipld C F → Option ℕ
  pub from_vec : Ipld C F → Option (List (Ipld C F))
  pub from_cids : Ipld C F → Option (List C)
  pub from_principal : Ipld C F → Option P

-- What libipld's serde support states of these.
pub record IsSerde {C F P : Type 0} (s : Serde C F P) : Type 0 where
  pub map_some : (m : Fields C F) → s.from_map (map m) ≡ some m
  pub map_only : (x : Ipld C F) (m : Fields C F) → s.from_map x ≡ some m → x ≡ map m
  pub cid_some : (c : C) → s.from_cid (link c) ≡ some c
  pub cid_only : (x : Ipld C F) (c : C) → s.from_cid x ≡ some c → x ≡ link c
  pub string_some : (t : String) → s.from_string (string t) ≡ some t
  pub string_only : (x : Ipld C F) (t : String) → s.from_string x ≡ some t → x ≡ string t
  pub u32_some : (n : ℕ) → n < 2 ^ 32 → s.from_u32 (integer (pos n)) ≡ some n
  pub vec_some : (xs : List (Ipld C F)) → s.from_vec (list (to_items xs)) ≡ some xs
  pub cids_some : (cs : List C) → s.from_cids (list (to_items (List.map link cs))) ≡ some cs
  pub u64_some : (n : ℕ) → n < 2 ^ 64 → s.from_u64 (integer (pos n)) ≡ some n
  pub u64_only :
      (x : Ipld C F) (n : ℕ) → s.from_u64 x ≡ some n → (x ≡ integer (pos n)) × (n < 2 ^ 64)
