-- ===== src/Runtime/Scheduler.antt =====
-- homestar-runtime/src/scheduler.rs: where a workflow is resumed, from the receipts of earlier runs.
-- The database is the function `find` (`Db::find_instruction_pointers`, `none` an error), and the
-- caller's `fetch_fn` is the function `fetch`.
pub mod Resume
pub mod Search
use homestar.Prelude.{
  ℕ, zero, suc, ◌+◌, ◌-◌, String, Bool, true, false, Option, none, some, List, [], ◌∷◌, ◌++◌, map,
  length, take, drop, set, ◌==◌, leb, ◌||◌, if◌then◌else◌,
}
use mathlib.Core.List.{reverse}
use homestar.Prelude.Vec.{position, swap_remove, flatten}
use homestar.Prelude.Classes.{Eq}
use homestar.Core.Pointer.{Pointer, new}
use homestar.Core.InstructionResult.{InstructionResult}
use homestar.Runtime.Resources.{Resource, IndexedResources, resources_of, insert}

-- A node of the schedule: its name, the instruction's CID as text, and its vertex.
pub record Node (V : Type 0) : Type 0 where
  pub name : String
  pub vertex : V

abbrev pub Batch : Type 0 → Type 0
Batch V = List (Node V)

abbrev pub Schedule : Type 0 → Type 0
Schedule V = List (Batch V)

pub record ExecutionGraph (C U V : Type 0) : Type 0 where
  pub schedule : Schedule V
  pub indexed_resources : IndexedResources C U

-- A receipt as far as the scheduler reads it: `instruction().cid()` and `output_as_arg()`.
pub record Found (C A : Type 0) : Type 0 where
  pub instruction : C
  pub output : InstructionResult A

abbrev pub LinkMap : Type 0 → Type 0 → Type 0
LinkMap C A = List (C × InstructionResult A)

-- `B` stands for the bytes of a fetched resource.
pub record TaskScheduler (C U V A B : Type 0) : Type 0 where
  pub linkmap : LinkMap C A
  pub ran : Option (Schedule V)
  pub run : Schedule V
  pub resume_step : Option ℕ
  pub resources : List (Resource C U × B)

-- the CID of a node's name and its resources: the two steps of the `try_fold` that may fail
unfoldable pub node_entry :
    {C U V : Type 0}
    → Eq C
    → (String → Option C)
    → IndexedResources C U
    → Node V
    → Option (C × List (Resource C U))
node_entry eq from_str rs n = elim (from_str n.name) [
  | none ↦ none
  | some c ↦ elim (resources_of eq c rs) [ none ↦ none | some rscs ↦ some (c, rscs) ]
]

module _ {C U : Type 0} (eq : Eq C) where
  -- `if let Some(idx) = resources_to_fetch.iter().position(..) { swap_remove(idx) }`
  unfoldable pub forget : C → List (C × Resource C U) → List (C × Resource C U)
  forget c fetch = elim (position (λ entry. eq.beq entry.0 c) fetch) [
    | some i ↦ swap_remove i fetch
    | none ↦ fetch
  ]

module _ {C U A : Type 0} (eq : Eq C) where
  -- the fold over the receipts that were found
  unfoldable pub take_stored :
      List (Found C A)
      → List (C × Resource C U)
      → LinkMap C A
      → List (C × Resource C U) × LinkMap C A
  take_stored [] fetch linkmap = (fetch, linkmap)
  take_stored (r ∷ rs) fetch linkmap =
      take_stored rs (forget eq r.instruction fetch) (insert eq r.instruction r.output linkmap)

module _ {C U A : Type 0} where
  -- `break 'resume` with the index after the batch, or `continue`
  unfoldable pub resume_next :
      ℕ
      → (List (C × Resource C U) → Option (ℕ × LinkMap C A) × List (C × Resource C U))
      → Option (LinkMap C A) × List (C × Resource C U)
      → Option (ℕ × LinkMap C A) × List (C × Resource C U)
  resume_next idx rest (some linkmap, fetch) = (some (idx + 1, linkmap), fetch)
  resume_next idx rest (none, fetch) = rest fetch

module _ {C U V A : Type 0} (eq : Eq C) (from_str : String → Option C)
    (find : List (Pointer C) → Option (List (Found C A))) where
  -- the `try_fold` over a batch. What was pushed to `resources_to_fetch` stays if a node fails.
  unfoldable pub batch_pointers :
      IndexedResources C U
      → Batch V
      → List (Pointer C)
      → List (C × Resource C U)
      → Option (List (Pointer C)) × List (C × Resource C U)
  batch_pointers rs [] ptrs fetch = (some ptrs, fetch)
  batch_pointers rs (n ∷ ns) ptrs fetch = elim (node_entry eq from_str rs n) [
    | none ↦ (none, fetch)
    | some (c, rscs) ↦ batch_pointers rs ns (ptrs ++ new c ∷ []) (fetch ++ map (λ r. (c, r)) rscs)
  ]

  -- one round of the loop: the links of the batch if it has run, and what is left to fetch
  unfoldable pub found_step :
      Batch V
      → List (C × Resource C U)
      → Option (List (Found C A))
      → Option (LinkMap C A) × List (C × Resource C U)
  found_step batch fetch none = (none, fetch)
  found_step batch fetch (some found) =
      let (fetch', linkmap) = take_stored eq found fetch [] in
      if length found == length batch then (some linkmap, fetch') else (none, fetch')

  unfoldable pub pointers_step :
      Batch V
      → Option (List (Pointer C)) × List (C × Resource C U)
      → Option (LinkMap C A) × List (C × Resource C U)
  unfolding found_step
  pointers_step batch (none, fetch) = (none, fetch)
  pointers_step batch (some ptrs, fetch) = found_step batch fetch (find ptrs)

  unfoldable pub batch_step :
      IndexedResources C U
      → Batch V
      → List (C × Resource C U)
      → Option (LinkMap C A) × List (C × Resource C U)
  unfolding pointers_step batch_pointers
  batch_step rs batch fetch = pointers_step batch (batch_pointers rs batch [] fetch)

  -- `schedule.iter().enumerate().rev()`: the batches from the last to the first; the index of a
  -- batch is the number of those before it.
  unfoldable pub resume_loop :
      IndexedResources C U
      → List (Batch V)
      → List (C × Resource C U)
      → Option (ℕ × LinkMap C A) × List (C × Resource C U)
  unfolding resume_next
  resume_loop rs [] fetch = (none, fetch)
  resume_loop rs (batch ∷ before) fetch =
      resume_next (length before) (λ left. resume_loop rs before left) (batch_step rs batch fetch)

-- `if idx >= schedule_length || idx == 0 { None } else { Some(idx) }`
abbrev pub step_of : ℕ → ℕ → Option ℕ
step_of idx schedule_length = if leb schedule_length idx || idx == 0 then none else some idx

-- the `match resume` of `init`; `split_off(idx)` leaves the batches before `idx` in the schedule
unfoldable pub scheduler_of :
    {C U V A B : Type 0}
    → Schedule V
    → Option (ℕ × LinkMap C A)
    → List (Resource C U × B)
    → TaskScheduler C U V A B
scheduler_of schedule (some (idx, linkmap)) fetched = record {
  linkmap = linkmap;
  ran = some (take idx schedule);
  run = drop idx schedule;
  resume_step = step_of idx (length schedule);
  resources = fetched;
}
scheduler_of schedule none fetched = record {
  linkmap = [];
  ran = none;
  run = schedule;
  resume_step = none;
  resources = fetched;
}

-- `fetch_fn(resources_to_fetch).await?`, and what follows
unfoldable pub with_fetched :
    {C U V A B : Type 0}
    → Schedule V
    → Option (ℕ × LinkMap C A)
    → Option (List (Resource C U × B))
    → Option (TaskScheduler C U V A B)
with_fetched schedule resume none = none
with_fetched schedule resume (some fetched) = some (scheduler_of schedule resume fetched)

module _ {C U V A B : Type 0} (eq : Eq C) (from_str : String → Option C)
    (find : List (Pointer C) → Option (List (Found C A)))
    (fetch : List (Resource C U) → Option (List (Resource C U × B))) where
  -- `TaskScheduler::init`; `none` is the error of `fetch_fn`. The set of resources to fetch is the
  -- list of its elements, in which one may stand twice.
  unfoldable pub init : ExecutionGraph C U V → Option (TaskScheduler C U V A B)
  unfolding with_fetched
  init graph =
      let (resume, left) =
        resume_loop eq from_str find graph.indexed_resources (reverse graph.schedule) [] in
      with_fetched graph.schedule resume (fetch (map (λ entry. entry.1) left))

-- `ran_length` and `run_length`
module _ {C U V A B : Type 0} where
  unfoldable pub ran_length : TaskScheduler C U V A B → ℕ
  ran_length s = elim s.ran [ some ran ↦ length (flatten ran) | none ↦ 0 ]

  unfoldable pub run_length : TaskScheduler C U V A B → ℕ
  run_length s = length (flatten s.run)
