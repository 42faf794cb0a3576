-- ===== src/Core/Config/Laws.antt =====
-- Resource limits through Ipld: what is kept, and what is lost.
use homestar.Prelude.{ℕ, ◌^◌, ◌<◌, ◌≡◌, refl, Option, none, some, arith}
use homestar.Result.{ok}
use homestar.Ipld.Serde.{Serde, IsSerde}
use homestar.Core.Config.{
  Duration, number_of, number_or_null, time_of, millis_or_null, from_millis, as_millis, Resources,
  resources_to_ipld, resources_of_ipld,
}

-- The numbers fit `u64`.
abbrev InU64 : Option ℕ → Type 0
InU64 none = Unit
InU64 (some n) = n < 2 ^ 64

abbrev MillisInU64 : Option Duration → Type 0
MillisInU64 none = Unit
MillisInU64 (some t) = as_millis t < 2 ^ 64

pub record IsInRange (r : Resources) : Type 0 where
  pub fuel : InU64 r.fuel
  pub memory : InU64 r.memory
  pub time : MillisInU64 r.time

-- A time rounded down to whole milliseconds.
abbrev pub whole_millis : Option Duration → Option Duration
whole_millis none = none
whole_millis (some t) = some (from_millis (as_millis t))

module _ {C F P : Type 0} (s : Serde C F P) (law : IsSerde s) where
  number_roundtrip : (o : Option ℕ) → InU64 o → number_of s (some (number_or_null o)) ≡ o
  number_roundtrip none h = refl
  number_roundtrip (some n) h = law.u64_some n h

  time_roundtrip :
      (o : Option Duration) → MillisInU64 o → time_of s (some (millis_or_null o)) ≡ whole_millis o
  time_roundtrip none h = refl
  time_roundtrip (some t) h = rw (law.u64_some (as_millis t) h)

  roundtrip :
      (f m : Option ℕ) (t : Option Duration)
      → InU64 f
      → InU64 m
      → MillisInU64 t
      → let r : Resources = record { fuel = f; memory = m; time = t } in
        resources_of_ipld s (resources_to_ipld r) ≡ ok (record r { time = whole_millis t })
  unfolding resources_of_ipld resources_to_ipld
  roundtrip f m t hf hm ht =
      rw law.map_some (cc (number_roundtrip f hf, number_roundtrip m hm, time_roundtrip t ht))

  -- Where serde reads as it documents, limits that fit `u64` (the time in milliseconds) written
  -- as Ipld are read back with the fuel and the memory unchanged and the time rounded down to
  -- whole milliseconds; an absent limit stays absent.
  pub resources_of_ipld-to_ipld :
      (r : Resources)
      → IsInRange r
      → resources_of_ipld s (resources_to_ipld r) ≡ ok (record r { time = whole_millis r.time })
  resources_of_ipld-to_ipld r h = roundtrip r.fuel r.memory r.time h.fuel h.memory h.time

-- A time of whole milliseconds is not changed by the rounding.
pub whole_millis-from_millis :
    (ms : ℕ) → whole_millis (some (from_millis ms)) ≡ some (from_millis ms)
whole_millis-from_millis ms = ground arith
