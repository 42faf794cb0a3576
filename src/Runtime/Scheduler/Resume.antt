-- ===== src/Runtime/Scheduler/Resume.antt =====
-- Where a workflow is resumed.
use homestar.Prelude.{
  ℕ, ◌+◌, ◌≡◌, refl, ap, sym, ◌∙◌, String, Bool, true, false, Option, none, some, List, [], ◌∷◌,
  ◌++◌, length, take, drop, ◌==◌, ◌<◌, length-append, arith, if◌then◌else◌,
}
use mathlib.Core.List.{reverse, reverse-reverse, reverse-cons, reverse-append}
use mathlib.Core.Option.{some-injective}
use mathlib.Core.Path.{subst, subst₂}
use homestar.Prelude.Vec.{All, All-reverse, length-reverse, take-append_length, drop-append_length}
use homestar.Prelude.Classes.{Eq}
use homestar.Core.Pointer.{Pointer}
use homestar.Runtime.Resources.{Resource, IndexedResources}
use homestar.Runtime.Scheduler.{
  Batch, Schedule, ExecutionGraph, Found, LinkMap, TaskScheduler, step_of, scheduler_of,
  with_fetched, init,
}
use homestar.Runtime.Scheduler.Search.{has_run, Outcome, loop-Outcome}

-- What a schedule is split into: the batches before the point of resumption, those from there on,
-- and the step that is recorded.
module _ {V : Type 0} (HasRun : Batch V → Bool) where
  abbrev pub ResumedAt : Schedule V → Option (Schedule V) → Schedule V → Option ℕ → Type 0
  ResumedAt schedule none run step =
      (run ≡ schedule) × (step ≡ none) × All (λ b. HasRun b ≡ false) schedule
  ResumedAt schedule (some ran) run step =
      (ran ++ run ≡ schedule)
      × ((earlier : List (Batch V)) × (batch : Batch V) × (ran ≡ earlier ++ batch ∷ [])
          × (HasRun batch ≡ true))
      × All (λ b. HasRun b ≡ false) run
      × (step ≡ (if length run == 0 then none else some (length ran)))

step_of_lengths :
    {V : Type 0} (ran run : List V)
    → 0 < length ran
    → step_of (length ran) (length (ran ++ run))
      ≡ (if length run == 0 then none else some (length ran))
step_of_lengths ran run h = ground (arith, length-append ran run)

module _ {C U V A : Type 0} (eq : Eq C) (from_str : String → Option C)
    (find : List (Pointer C) → Option (List (Found C A))) (rs : IndexedResources C U) where
  NotRun : Batch V → Type 0
  NotRun b = has_run eq from_str find rs b ≡ false

  split_at :
      (earlier : List (Batch V)) (batch : Batch V) (run : List (Batch V))
      → has_run eq from_str find rs batch ≡ true
      → All NotRun run
      → let ran = earlier ++ batch ∷ [] in
        ResumedAt
          (has_run eq from_str find rs)
          (ran ++ run)
          (some (take (length ran) (ran ++ run)))
          (drop (length ran) (ran ++ run))
          (step_of (length ran) (length (ran ++ run)))
  unfolding NotRun
  split_at earlier batch run hr rest =
      let ran : List (Batch V) = earlier ++ batch ∷ [] in
      rw (take-append_length ran run, drop-append_length ran run)
        (
          refl,
          (earlier, batch, refl, hr),
          rest,
          step_of_lengths ran run (omega (arith, length-append earlier (batch ∷ []))),
        )

  split_resumed :
      (earlier : List (Batch V)) (batch : Batch V) (run : List (Batch V)) (schedule : Schedule V)
      (idx : ℕ)
      → (earlier ++ batch ∷ []) ++ run ≡ schedule
      → idx ≡ length earlier + 1
      → has_run eq from_str find rs batch ≡ true
      → All NotRun run
      → ResumedAt
          (has_run eq from_str find rs)
          schedule
          (some (take idx schedule))
          (drop idx schedule)
          (step_of idx (length schedule))
  split_resumed earlier batch run schedule idx q i hr rest =
      let same : length (earlier ++ batch ∷ []) ≡ idx =
        omega (arith, length-append earlier (batch ∷ [])) in
      subst₂
        (λ n s.
          ResumedAt (has_run eq from_str find rs) s (some (take n s)) (drop n s)
            (step_of n (length s)))
        same q (split_at earlier batch run hr rest)

  scheduler_of-ResumedAt :
      {B : Type 0} (schedule : Schedule V) (resume : Option (ℕ × LinkMap C A))
      (fetched : List (Resource C U × B))
      → Outcome eq from_str find rs (reverse schedule) resume
      → let s = scheduler_of schedule resume fetched in
        ResumedAt (has_run eq from_str find rs) schedule s.ran s.run s.resume_step
  unfolding scheduler_of NotRun
  scheduler_of-ResumedAt schedule none fetched h = (
    refl,
    refl,
    subst (All NotRun) (reverse-reverse schedule) (All-reverse NotRun (reverse schedule) h),
  )
  scheduler_of-ResumedAt schedule (some (idx, lm)) fetched (after, batch, before, q, i, hr, rest) =
      split_resumed (reverse before) batch (reverse after) schedule idx
        (ap (λ l. l ++ reverse after) (sym (reverse-cons batch before))
          ∙ sym (reverse-append after (batch ∷ before))
          ∙ ap reverse (sym q)
          ∙ reverse-reverse schedule)
        (i ∙ ap (λ n. n + 1) (sym (length-reverse before))) hr (All-reverse NotRun after rest)

  fetched_resumed :
      {B : Type 0} (schedule : Schedule V) (resume : Option (ℕ × LinkMap C A))
      (fetched : Option (List (Resource C U × B))) (s : TaskScheduler C U V A B)
      → Outcome eq from_str find rs (reverse schedule) resume
      → with_fetched schedule resume fetched ≡ some s
      → ResumedAt (has_run eq from_str find rs) schedule s.ran s.run s.resume_step
  unfolding with_fetched
  fetched_resumed schedule resume none s o h = cc
  fetched_resumed schedule resume (some fetched) s o h =
      subst (λ t. ResumedAt (has_run eq from_str find rs) schedule t.ran t.run t.resume_step)
        (some-injective _ _ h) (scheduler_of-ResumedAt schedule resume fetched o)

module _ {C U V A B : Type 0} (eq : Eq C) (from_str : String → Option C)
    (find : List (Pointer C) → Option (List (Found C A)))
    (fetch : List (Resource C U) → Option (List (Resource C U × B))) where
  -- the same of any scheduler that is initialised
  init-ResumedAt :
      (graph : ExecutionGraph C U V) (s : TaskScheduler C U V A B)
      → init eq from_str find fetch graph ≡ some s
      → ResumedAt
          (has_run eq from_str find graph.indexed_resources)
          graph.schedule
          s.ran
          s.run
          s.resume_step
  unfolding init
  init-ResumedAt graph s h =
      fetched_resumed eq from_str find graph.indexed_resources graph.schedule _ _ s
        (loop-Outcome eq from_str find graph.indexed_resources (reverse graph.schedule) []) h

  with_fetched-some :
      (schedule : Schedule V) (resume : Option (ℕ × LinkMap C A))
      (fetched : Option (List (Resource C U × B)))
      → (f : List (Resource C U × B)) × (fetched ≡ some f)
      → (s : TaskScheduler C U V A B) × (with_fetched schedule resume fetched ≡ some s)
  unfolding with_fetched
  with_fetched-some schedule resume none (f, h) = absurd (cc h)
  with_fetched-some schedule resume (some fetched) h = (_, refl)

  pub init-some :
      (graph : ExecutionGraph C U V)
      → ((rs : List (Resource C U)) → (f : List (Resource C U × B)) × (fetch rs ≡ some f))
      → (s : TaskScheduler C U V A B) × (init eq from_str find fetch graph ≡ some s)
  unfolding init
  init-some graph answers = with_fetched-some graph.schedule _ _ (answers _)

  -- Where every fetch of resources succeeds, a scheduler is initialised from every graph. It
  -- splits the schedule without losing or reordering a batch, directly after the last batch
  -- that has run: no batch that is left to run has run already, and a scheduler with nothing
  -- behind it is one for which no batch has. The step to resume from is the number of the
  -- batches that ran, where a batch is left. A batch has run where every node names an
  -- instruction that has resources and as many receipts are found for these instructions as it
  -- has nodes.
  pub init_lem :
      (graph : ExecutionGraph C U V)
      → ((rs : List (Resource C U)) → (f : List (Resource C U × B)) × (fetch rs ≡ some f))
      → (s : TaskScheduler C U V A B) × (init eq from_str find fetch graph ≡ some s)
        × ResumedAt
            (has_run eq from_str find graph.indexed_resources)
            graph.schedule
            s.ran
            s.run
            s.resume_step
  init_lem graph answers = let (s, e) = init-some graph answers in (s, e, init-ResumedAt graph s e)
