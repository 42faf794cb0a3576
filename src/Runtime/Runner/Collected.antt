-- ===== src/Runtime/Runner/Collected.antt =====
-- What the expiration of a worker and the garbage collection leave of the running sets.
use mathlib.Core.List.{append-nil}
use homestar.Prelude.{
  ℕ, ◌≡◌, refl, sym, ap, ◌∙◌, Bool, true, false, Option, none, some, List, [], ◌∷◌, ◌++◌, not, map,
  ◌≢◌, inl, inr, Bool-cases, if◌then◌else◌,
}
use homestar.Prelude.Classes.{Eq}
use homestar.Prelude.Vec.{All}
use homestar.Prelude.Table.{select, exists}
use homestar.Foreign.{Foreign}
use homestar.Runtime.Resources as Index
use homestar.Runtime.Resources.Table.{beq_eq, beq_of_beq}
use homestar.Runtime.Handler.{Net}
use homestar.Runtime.Handler.Calls.{remove, get-remove}
use homestar.Runtime.Runner.{
  DelayQueue, IsDelayQueue, Runner, worker, task, gc, retain_tasks, with_handles, abort_worker,
  abort_worker_tasks, abort_handles, abort_found,
}
use homestar.Runtime.Runner.Keys.{has, UniqueKeys, has-select}
use homestar.Runtime.Runner.Entries.{IsTimed}
use homestar.Runtime.Runner.Timed.{serve_arm-IsTimed, gc-IsTimed}
use homestar.Runtime.Runner.Serve.{expires, serve_arm, expired_of}

module _ {C V : Type 0} (eq : Eq C) where
  get-remove_ne :
      (d c : C) (m : List (C × V))
      → eq.beq d c ≡ false
      → Index.get eq d (remove eq c m) ≡ Index.get eq d m
  unfolding remove Index.get
  get-remove_ne d c [] h = refl
  get-remove_ne d c ((j, v) ∷ m) h = elim (Bool-cases (eq.beq c j)) [
    | inl e ↦ rw (e, beq_of_beq eq e h) (get-remove_ne d c m h)
    | inr e ↦ elim (Bool-cases (eq.beq d j)) [
      | inl f ↦ rw (e, f) refl
      | inr f ↦ rw (e, f) (get-remove_ne d c m h)
    ]
  ]

abbrev handles_of {ℓ} : {T : Type ℓ} → Option (List T) → List T
handles_of none = []
handles_of (some handles) = handles

module _ {C U Q K J T : Type 0} {net : Net} (eq : Eq C) where
  -- From `s` to `t`, the worker of `c` was aborted and then its tasks, it and its tasks are in neither
  -- set, and what the sets have of the others is the same.
  abbrev pub IsAborted : C → J → Runner C U Q K J T net → Runner C U Q K J T net → Type 0
  IsAborted c handle s t =
      (t.aborted
        ≡ (s.aborted ++ worker handle ∷ [])
          ++ map task (handles_of (Index.get eq c s.running_tasks)))
      × (Index.get eq c t.running_workers ≡ none)
      × (Index.get eq c t.running_tasks ≡ none)
      × ((d : C)
          → eq.beq d c ≡ false
          → (Index.get eq d t.running_workers ≡ Index.get eq d s.running_workers)
            × (Index.get eq d t.running_tasks ≡ Index.get eq d s.running_tasks))

  abort_handles-IsAborted :
      (c : C) (handle : J) (found : Option (List T)) (s t : Runner C U Q K J T net)
      → Index.get eq c s.running_tasks ≡ found
      → t.running_tasks ≡ s.running_tasks
      → t.running_workers ≡ remove eq c s.running_workers
      → t.aborted ≡ s.aborted ++ worker handle ∷ []
      → IsAborted c handle s (abort_handles eq c found t)
  abort_handles-IsAborted c handle none s t g tasks workers log =
      let logged = s.aborted ++ worker handle ∷ [] in
      (
        log ∙ sym (ap (λ o. logged ++ map task (handles_of o)) g ∙ append-nil logged),
        ap (Index.get eq c) workers ∙ get-remove eq c s.running_workers,
        ap (Index.get eq c) tasks ∙ g,
        λ d ne. (
          ap (Index.get eq d) workers ∙ get-remove_ne eq d c s.running_workers ne,
          ap (Index.get eq d) tasks,
        ),
      )
  abort_handles-IsAborted c handle (some handles) s t g tasks workers log =
      let logged = s.aborted ++ worker handle ∷ [] in
      (
        ap (λ xs. xs ++ map task handles) log ∙ sym (ap (λ o. logged ++ map task (handles_of o)) g),
        ap (Index.get eq c) workers ∙ get-remove eq c s.running_workers,
        get-remove eq c t.running_tasks,
        λ d ne. (
          ap (Index.get eq d) workers ∙ get-remove_ne eq d c s.running_workers ne,
          get-remove_ne eq d c t.running_tasks ne ∙ ap (Index.get eq d) tasks,
        ),
      )

module _ {C U Q K J T : Type 0} {net : Net} (dq : DelayQueue C Q K) (eq : Eq C) where
  -- `q` is the queue before the worker's own entry leaves it.
  abort_found-IsAborted :
      (c : C) (handle : J) (key : K) (q : Q) (s : Runner C U Q K J T net)
      → IsAborted eq c handle s
          (abort_found dq eq c (some (handle, key)) (record s { expiration_queue = q }))
  unfolding abort_found abort_worker_tasks
  abort_found-IsAborted c handle key q s =
      abort_handles-IsAborted eq c handle (Index.get eq c s.running_tasks) s _ refl refl refl refl

module _ {C F P U Q K J T : Type 0} (V : Type 0) {net : Net} {dq : DelayQueue C Q K} {eq_key : Eq K}
    (laws : IsDelayQueue dq eq_key) (e : Foreign C F P U) (eq : Eq C) where
  -- Where each worker has an entry of its CID in the expiration queue and no two have one CID:
  -- when the entry of a running worker expires and the queue can be borrowed, the worker and
  -- its tasks are aborted, both sets forget them and keep the others, and the workers that are
  -- left have their entries still.
  pub expires-IsAborted :
      (now : ℕ) (c : C) (rest : Q) (handle : J) (key : K) (s : Runner C U Q K J T net)
      → IsTimed dq eq s
      → dq.poll_expired now s.expiration_queue ≡ some (c, rest)
      → Index.get eq c s.running_workers ≡ some (handle, key)
      → let t = serve_arm {V = V} dq e eq true (expires now) s in
        IsAborted eq c handle s t × IsTimed dq eq t
  unfolding serve_arm expired_of abort_worker
  expires-IsAborted now c rest handle key s h polled g = (
    rw (polled, g) (abort_found-IsAborted dq eq c handle key rest s),
    serve_arm-IsTimed {V = V} laws e eq true (expires now) s h,
  )

-- what the collection of finished workers leaves of a lookup
abbrev pub unfinished : {J K : Type 0} → (J → Bool) → Option (J × K) → Option (J × K)
unfinished is_finished none = none
unfinished is_finished (some (handle, key)) =
    if is_finished handle then none else some (handle, key)

module _ {C J K : Type 0} (eq : Eq C) (is_finished : J → Bool) where
  get_of_absent : (c : C) (m : List (C × (J × K))) → has eq c m ≡ false → Index.get eq c m ≡ none
  unfolding Index.get exists
  get_of_absent c [] a = refl
  get_of_absent c ((d, w) ∷ m) a = elim (Bool-cases (eq.beq c d)) [
    | inl e ↦ cc (rw e at a)
    | inr e ↦ rw e (get_of_absent c m (rw e at a))
  ]

  get-select :
      (c : C) (m : List (C × (J × K)))
      → UniqueKeys eq m
      → Index.get eq c (select (λ w. not (is_finished w.1.0)) m)
        ≡ unfinished is_finished (Index.get eq c m)
  unfolding Index.get select
  get-select c [] u = refl
  get-select c ((d, (h, k)) ∷ m) (a, u) = elim (Bool-cases (is_finished h)) [
    | inl e ↦ elim (Bool-cases (eq.beq c d)) [
      | inl f ↦
          rw (e, f, e)
            (get_of_absent c _ (
              has-select eq (λ w. not (is_finished w.1.0)) c m
                (ap (λ x. has eq x m) (beq_eq eq f) ∙ a)))
      | inr f ↦ rw (e, f) (get-select c m u)
    ]
    | inr e ↦ elim (Bool-cases (eq.beq c d)) [
      | inl f ↦ rw (e, f, e) refl
      | inr f ↦ rw (e, f) (get-select c m u)
    ]
  ]

module _ {T : Type 0} (is_finished : T → Bool) where
  All-select :
      (handles : List T)
      → All (λ h. is_finished h ≡ false) (select (λ h. not (is_finished h)) handles)
  unfolding select
  All-select [] = tt
  All-select (h ∷ handles) = elim (Bool-cases (is_finished h)) [
    | inl e ↦ rw e (All-select handles)
    | inr e ↦ rw e (e, All-select handles)
  ]

module _ {C T : Type 0} (is_finished : T → Bool) where
  -- handles of a CID: there are some, and none of them is finished
  abbrev pub IsRunning : C × List T → Type 0
  IsRunning (c, handles) = (handles ≢ []) × All (λ h. is_finished h ≡ false) handles

  with_handles-IsRunning :
      (c : C) (handles : List T) (m : List (C × List T))
      → All (λ h. is_finished h ≡ false) handles
      → All IsRunning m
      → All IsRunning (with_handles c handles m)
  with_handles-IsRunning c [] m hs ms = ms
  with_handles-IsRunning c (h ∷ handles) m hs ms = ((λ e. cc e, hs), ms)

  retain_tasks-IsRunning : (m : List (C × List T)) → All IsRunning (retain_tasks is_finished m)
  unfolding retain_tasks
  retain_tasks-IsRunning [] = tt
  retain_tasks-IsRunning ((c, handles) ∷ m) =
      with_handles-IsRunning c _ _ (All-select is_finished handles) (retain_tasks-IsRunning m)

module _ {C U Q K J T : Type 0} {net : Net} {dq : DelayQueue C Q K} {eq_key : Eq K}
    (laws : IsDelayQueue dq eq_key) (eq : Eq C) where
  -- Where each worker has an entry of its CID in the expiration queue and no two have one CID:
  -- a collection that can borrow the queue keeps exactly the workers that are not finished,
  -- each with its handle and its key, and their entries; and each CID that has running tasks
  -- then has one, and only tasks that are not finished.
  pub gc-IsRunning :
      (is_finished : J → Bool) (task_is_finished : T → Bool) (s : Runner C U Q K J T net)
      → IsTimed dq eq s
      → let (result, t) = gc dq true is_finished task_is_finished s in
        ((c : C)
          → Index.get eq c t.running_workers
            ≡ unfinished is_finished (Index.get eq c s.running_workers))
        × All (IsRunning task_is_finished) t.running_tasks
        × IsTimed dq eq t
  unfolding gc
  gc-IsRunning is_finished task_is_finished s h = (
    λ c. get-select eq is_finished c s.running_workers h.1,
    retain_tasks-IsRunning task_is_finished s.running_tasks,
    gc-IsTimed laws eq true is_finished task_is_finished s h,
  )
