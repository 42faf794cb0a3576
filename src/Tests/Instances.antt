-- ===== src/Tests/Instances.antt =====
-- A wasm instance that makes a memory, grows it, is refused a second growth, and is allowed a third
-- that the engine does not make.
use homestar.Prelude.{ℕ, true, false, some, none, List, [], ◌∷◌, arith}
use homestar.Wasm.Limits.{StoreLimitsAsync, memory_growing}
use homestar.Wasm.Limits.Growth.{Reached, Counted, Reached-Counted, start, create, grow}

abbrev Run : StoreLimitsAsync → List ℕ → ℕ → Type 0
Run s ns lost = Reached (some 100) none s ns lost

abbrev limits : ℕ → StoreLimitsAsync
limits n = record { max_memory_size = some 100; max_table_elements = none; memory_consumed = n }

grown-Reached : Run (limits 90) (80 ∷ []) 10
unfolding memory_growing
grown-Reached = grow (limits 80) [] 80 [] 0 90 false (ground arith) (ground arith) (
    grow (limits 80) [] 80 [] 0 120 true (ground arith) (ground arith) (
      grow (limits 10) [] 10 [] 0 80 true (ground arith) (ground arith)
        (create _ [] 0 10 true (ground arith) start)))

Reached-Counted_example : Counted (some 100) (limits 90) (80 ∷ []) 10
Reached-Counted_example = Reached-Counted (some 100) none (limits 90) (80 ∷ []) 10 grown-Reached
