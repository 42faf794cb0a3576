-- ===== src/Wasm/Limits.antt =====
-- homestar-wasm/src/wasmtime/limits.rs: how much the memories and tables of an instance may grow.
-- `usize` has 64 bits.
pub mod Growth
use homestar.Prelude.{ℕ, ◌+◌, ◌-◌, ◌%◌, ◌^◌, Bool, true, Option, none, some, leb, if◌then◌else◌}
use homestar.Core.Config.{wasm_max_memory}

pub record StoreLimitsAsync : Type 0 where
  pub max_memory_size : Option ℕ
  pub max_table_elements : Option ℕ
  pub memory_consumed : ℕ

abbrev pub default : StoreLimitsAsync
default = record {
  max_memory_size = some wasm_max_memory;
  max_table_elements = none;
  memory_consumed = 0;
}

abbrev pub new : Option ℕ → Option ℕ → StoreLimitsAsync
new max_memory_size max_table_elements = record {
  max_memory_size = max_memory_size;
  max_table_elements = max_table_elements;
  memory_consumed = 0;
}

-- `if let Some(limit) = max { desired <= limit } else { true }`
abbrev pub within : Option ℕ → ℕ → Bool
within none desired = true
within (some limit) desired = leb desired limit

-- `(consumed as i64 + (desired as i64 - current as i64)) as u64`, with the wrap-around of a release
-- build
abbrev pub consumed_after : ℕ → ℕ → ℕ → ℕ
consumed_after consumed current desired =
    (consumed + (desired + 2 ^ 64 - current) % 2 ^ 64) % 2 ^ 64

unfoldable pub memory_growing : StoreLimitsAsync → ℕ → ℕ → Bool × StoreLimitsAsync
memory_growing s current desired =
    let can_grow = within s.max_memory_size desired in
    (
      can_grow,
      if can_grow
          then record s { memory_consumed = consumed_after s.memory_consumed current desired }
          else s,
    )

unfoldable pub table_growing : StoreLimitsAsync → ℕ → ℕ → Bool × StoreLimitsAsync
table_growing s current desired = (within s.max_table_elements desired, s)
