-- ===== src/Ipld/Maps.antt =====
-- Laws of the `BTreeMap` of an Ipld map.
use text.Mathlib.Text.{◌==◌}
use text.Mathlib.TextEquality.{eq_iff, path_by_compare}
use homestar.Prelude.{◌≡◌, refl, String, some, arith, if◌then◌else◌}
use homestar.Ipld.{Ipld, Fields, end, field, insert, get}

module _ {C F : Type 0} where
  -- What a key holds after an insertion.
  pub get-insert :
      (k j : String) (v : Ipld C F) (m : Fields C F)
      → get j (insert k v m) ≡ (if j == k then some v else get j m)
  unfolding get insert
  get-insert k j v end = refl
  get-insert k j v (field i w m) =
      ground (arith, get-insert k j v m, path_by_compare k i, eq_iff k i, eq_iff j k, eq_iff j i)
