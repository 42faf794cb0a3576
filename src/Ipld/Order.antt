-- ===== src/Ipld/Order.antt =====
-- Maps whose keys stand in order, and insertion behind them.
use Prim.Native.String.{compare}
use Prim.Native.Nat.{Ordering}
use homestar.Prelude.{◌≡◌, refl, ap, String}
use homestar.Ipld.{Ipld, Fields, insert}

module _ {C F : Type 0} where
  -- Every key of the map comes after `k`.
  abbrev pub After : String → Fields C F → Type 0
  After k Fields.end = Unit
  After k (Fields.field j v m) = (compare j k ≡ Ordering.gt) × After k m

  -- The keys stand in order, as those of a `BTreeMap` do.
  abbrev pub IsSorted : Fields C F → Type 0
  IsSorted Fields.end = Unit
  IsSorted (Fields.field k v m) = After k m × IsSorted m

  abbrev pub append : Fields C F → Fields C F → Fields C F
  append Fields.end n = n
  append (Fields.field k v m) n = Fields.field k v (append m n)

  -- `k` comes after every key of the map.
  abbrev pub Before : Fields C F → String → Type 0
  Before Fields.end k = Unit
  Before (Fields.field j v m) k = (compare k j ≡ Ordering.gt) × Before m k

  abbrev pub AllBefore : Fields C F → Fields C F → Type 0
  AllBefore acc Fields.end = Unit
  AllBefore acc (Fields.field k v m) = Before acc k × AllBefore acc m

  pub insert_last :
      (k : String) (v : Ipld C F) (m : Fields C F)
      → Before m k
      → insert k v m ≡ append m (Fields.field k v Fields.end)
  unfolding insert
  insert_last k v Fields.end h = refl
  insert_last k v (Fields.field j w m) (e, h) =
      rw (e, insert) (ap (Fields.field j w) (insert_last k v m h))

  Before-append :
      (m : Fields C F) (k : String) (v : Ipld C F) (j : String)
      → Before m j
      → compare j k ≡ Ordering.gt
      → Before (append m (Fields.field k v Fields.end)) j
  Before-append Fields.end k v j h e = (e, tt)
  Before-append (Fields.field i w m) k v j (d, h) e = (d, Before-append m k v j h e)

  pub AllBefore-append :
      (acc : Fields C F) (k : String) (v : Ipld C F) (m : Fields C F)
      → AllBefore acc m
      → After k m
      → AllBefore (append acc (Fields.field k v Fields.end)) m
  AllBefore-append acc k v Fields.end h a = tt
  AllBefore-append acc k v (Fields.field j w m) (b, h) (e, a) =
      (Before-append acc k v j b e, AllBefore-append acc k v m h a)

  pub append-append :
      (acc : Fields C F) (k : String) (v : Ipld C F) (m : Fields C F)
      → append (append acc (Fields.field k v Fields.end)) m ≡ append acc (Fields.field k v m)
  append-append Fields.end k v m = refl
  append-append (Fields.field j w acc) k v m = ap (Fields.field j w) (append-append acc k v m)

  pub AllBefore-end : (m : Fields C F) → AllBefore Fields.end m
  AllBefore-end Fields.end = tt
  AllBefore-end (Fields.field k v m) = (tt, AllBefore-end m)

  pub append_end : (acc : Fields C F) → acc ≡ append acc Fields.end
  append_end Fields.end = refl
  append_end (Fields.field k v acc) = ap (Fields.field k v) (append_end acc)
