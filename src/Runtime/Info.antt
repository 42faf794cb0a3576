-- ===== src/Runtime/Info.antt =====
-- `Stored` and `Info` of homestar-runtime/src/workflow/info.rs: a workflow as it is stored, and its
-- progress.
pub mod Counts
pub mod Translate
pub mod Laws
use homestar.Prelude.{
  ℕ, ◌+◌, ◌-◌, ◌%◌, ◌^◌, ◌<◌, ◌≡◌, refl, String, Option, none, some, List, [], ◌∷◌, ◌++◌, length,
  length-append, arith, ltb, if◌then◌else◌,
}
use homestar.Prelude.Int.{ℤ, pos, negsuc}
use homestar.Core.Pointer.{Pointer}
use homestar.Runtime.Resources.{IndexedResources}

-- `n as i32` of a `u32`, and `n as u32` of an `i32`
abbrev pub as_i32 : ℕ → ℤ
as_i32 n = if ltb n (2 ^ 31) then pos n else negsuc (2 ^ 32 - 1 - n)

abbrev pub as_u32 : ℤ → ℕ
as_u32 (pos n) = n
as_u32 (negsuc n) = 2 ^ 32 - 1 - n

-- A time is a number; the code compares times only.
pub record Stored (C U : Type 0) : Type 0 where
  pub cid : Pointer C
  pub name : Option String
  pub num_tasks : ℤ
  pub resources : IndexedResources C U
  pub created_at : ℕ
  pub completed_at : Option ℕ

pub record Info (C U : Type 0) : Type 0 where
  pub cid : C
  pub name : Option String
  pub num_tasks : ℕ
  pub progress : List C
  pub progress_count : ℕ
  pub resources : IndexedResources C U

module _ {C U : Type 0} where
  -- `Stored::new`
  unfoldable pub new_stored : Pointer C → Option String → ℤ → IndexedResources C U → ℕ → Stored C U
  new_stored cid name num_tasks resources created_at = record {
    cid = cid;
    name = name;
    num_tasks = num_tasks;
    resources = resources;
    created_at = created_at;
    completed_at = none;
  }

  -- `Info::new`
  unfoldable pub new : Stored C U → List C → Info C U
  new stored progress = record {
    cid = stored.cid.cid;
    name = stored.name;
    num_tasks = as_u32 stored.num_tasks;
    progress = progress;
    progress_count = length progress % 2 ^ 32;
    resources = stored.resources;
  }

  -- `Info::default`
  unfoldable pub default : Stored C U → Info C U
  default stored = record {
    cid = stored.cid.cid;
    name = stored.name;
    num_tasks = as_u32 stored.num_tasks;
    progress = [];
    progress_count = 0;
    resources = stored.resources;
  }

  abbrev pub set_progress_count : Info C U → ℕ → Info C U
  set_progress_count i n = record i { progress_count = n }

  -- `increment_progress`: the length is taken after the push. (An overflow of `+ 1` panics in a debug
  -- build and wraps in a release build, which is the one modelled.)
  unfoldable pub increment_progress : Info C U → C → Info C U
  increment_progress i c =
      let progress = i.progress ++ c ∷ [] in
      record i { progress = progress; progress_count = (length progress % 2 ^ 32 + 1) % 2 ^ 32 }

  -- one increment after the other
  unfoldable pub increment_all : Info C U → List C → Info C U
  unfolding increment_progress
  increment_all i [] = i
  increment_all i (c ∷ cs) = increment_all (increment_progress i c) cs

-- A number of tasks below 2^32 that is stored as an `i32` is read back as itself.
pub as_u32-as_i32 : (n : ℕ) → n < 2 ^ 32 → as_u32 (as_i32 n) ≡ n
as_u32-as_i32 n h = ground arith
