-- ===== src/Core/Config.antt =====
-- homestar-core/src/workflow/config.rs: the resource limits of a task.
pub mod Laws
use homestar.Prelude.{ℕ, ◌^◌, ◌-◌, ◌*◌, ◌+◌, ◌/◌, String, Option, none, some, [], ◌∷◌}
use homestar.Prelude.Int.{pos}
use homestar.Result.{Result, ok, ok_or, ◌>>=◌}
use homestar.Ipld.{Ipld, null, integer, map, get, from_list}
use homestar.Ipld.Serde.{Serde}
use homestar.Core.Error.{Error, from_ipld}

abbrev pub fuel_key : String
fuel_key = "fuel"

abbrev pub memory_key : String
memory_key = "memory"

abbrev pub timeout_key : String
timeout_key = "time"

-- `consts::WASM_MAX_MEMORY`, 4 GiB
abbrev pub wasm_max_memory : ℕ
wasm_max_memory = 4 * 2 ^ 30

-- `std::time::Duration`: seconds, and nanoseconds below 10^9
pub record Duration : Type 0 where
  pub secs : ℕ
  pub nanos : ℕ

abbrev pub from_millis : ℕ → Duration
from_millis ms = record { secs = ms / 1000; nanos = (ms - ms / 1000 * 1000) * 1000000 }

abbrev pub as_millis : Duration → ℕ
as_millis d = d.secs * 1000 + d.nanos / 1000000

pub record Resources : Type 0 where
  pub fuel : Option ℕ
  pub memory : Option ℕ
  pub time : Option Duration

abbrev pub default : Resources
default = record {
  fuel = some (2 ^ 64 - 1);
  memory = some wasm_max_memory;
  time = some (from_millis 100000);
}

abbrev pub new : ℕ → ℕ → Duration → Resources
new fuel memory time = record { fuel = some fuel; memory = some memory; time = some time }

abbrev pub set_fuel : Resources → ℕ → Resources
set_fuel r fuel = record r { fuel = some fuel }

abbrev pub set_time : Resources → Duration → Resources
set_time r time = record r { time = some time }

abbrev pub set_memory : Resources → ℕ → Resources
set_memory r memory = record r { memory = some memory }

module _ {C F : Type 0} where
  abbrev pub number_or_null : Option ℕ → Ipld C F
  number_or_null none = null
  number_or_null (some n) = integer (pos n)

  abbrev pub millis_or_null : Option Duration → Ipld C F
  millis_or_null none = null
  millis_or_null (some t) = integer (pos (as_millis t))

  -- `From<Resources> for Ipld`
  unfoldable pub resources_to_ipld : Resources → Ipld C F
  unfolding from_list
  resources_to_ipld r = map (
      from_list (
        (fuel_key, number_or_null r.fuel)
        ∷ (memory_key, number_or_null r.memory)
        ∷ (timeout_key, millis_or_null r.time)
        ∷ []))

module _ {C F P : Type 0} (s : Serde C F P) where
  -- `.and_then(|ipld| match ipld { Null => None, ipld => from_ipld(ipld).ok() })`
  abbrev pub number_of : Option (Ipld C F) → Option ℕ
  number_of none = none
  number_of (some null) = none
  number_of (some x) = s.from_u64 x

  -- `from_ipld(ipld).unwrap_or(100_000)`
  abbrev pub millis_or : Option ℕ → ℕ
  millis_or none = 100000
  millis_or (some ms) = ms

  abbrev pub time_of : Option (Ipld C F) → Option Duration
  time_of none = none
  time_of (some null) = none
  time_of (some x) = some (from_millis (millis_or (s.from_u64 x)))

  -- `TryFrom<Ipld> for Resources`
  unfoldable pub resources_of_ipld : Ipld C F → Result (Error C F (Unit {0})) Resources
  unfolding get
  resources_of_ipld x = do
    m ← ok_or (s.from_map x) from_ipld
    ok (record {
      fuel = number_of (get fuel_key m);
      memory = number_of (get memory_key m);
      time = time_of (get timeout_key m);
    })
