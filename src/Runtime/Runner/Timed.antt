-- ===== src/Runtime/Runner/Timed.antt =====
-- Every worker that runs has an entry in the expiration queue, through every arm of the runner's loop.
use homestar.Prelude.{
  ℕ, ◌≡◌, refl, Bool, true, false, Option, none, some, List, [], ◌∷◌, not, inl, inr, Option-cases,
}
use homestar.Prelude.Classes.{Eq}
use homestar.Result.{ok, err}
use homestar.Foreign.{Foreign}
use homestar.Runtime.Resources as Index
use homestar.Runtime.Handler.{Net}
use homestar.Runtime.Runner.{
  DelayQueue, IsDelayQueue, Runner, init, gc, abort_worker, abort_worker_tasks, abort_handles,
  abort_found,
}
use homestar.Runtime.Runner.Entries.{
  Timed, IsTimed, Timed-others, Timed-twice, Timed-forget_finished, value-inserted,
}
use homestar.Runtime.Runner.Keys.{
  UniqueKeys, All-insert, Unique-insert, All-remove, Unique-remove, Unique-select, has_of_none,
  All-get, All_of_absent,
}
use homestar.Runtime.Runner.Launch.{run_worker, provide_workflow, track}
use homestar.Runtime.Runner.Serve.{
  Arm, launched, dropped, tick, expires, appended, serve_arm, serve, expired_of,
}

module _ {C U Q K J T : Type 0} {net : Net} {dq : DelayQueue C Q K} {eq_key : Eq K}
    (laws : IsDelayQueue dq eq_key) (eq : Eq C) where
  abort_handles-IsTimed :
      (c : C) (handles : Option (List T)) (s : Runner C U Q K J T net)
      → IsTimed dq eq s
      → IsTimed dq eq (abort_handles eq c handles s)
  abort_handles-IsTimed c none s h = h
  abort_handles-IsTimed c (some handles) s h = h

  -- A worker is aborted when `q` timed the workers and an entry for it has left the queue, or none.
  abort_found-IsTimed :
      (c : C) (q : Q) (found : Option (J × K)) (s : Runner C U Q K J T net) (j : K)
      → Index.get eq c s.running_workers ≡ found
      → dq.value j q ≡ some c
      → ((k : K) → eq_key.beq k j ≡ false → dq.value k s.expiration_queue ≡ dq.value k q)
      → Timed dq q s.running_workers
      → UniqueKeys eq s.running_workers
      → IsTimed dq eq (abort_found dq eq c found s)
  unfolding abort_worker_tasks
  abort_found-IsTimed c q none s j g f keeps ps u = (
    Timed-others laws eq c j q s.expiration_queue s.running_workers f keeps
        (All_of_absent eq _ c s.running_workers (has_of_none eq c s.running_workers g) ps),
    u,
  )
  abort_found-IsTimed c q (some (handle, k)) s j g f keeps ps u = abort_handles-IsTimed c _ _ (
    Timed-twice laws eq c j k q s.expiration_queue _ f (All-get eq _ c s.running_workers ps g) keeps
        (All-remove eq _ c s.running_workers ps),
    Unique-remove eq c s.running_workers u,
  )

  abort_worker-IsTimed :
      (free : Bool) (c : C) (s : Runner C U Q K J T net)
      → IsTimed dq eq s
      → IsTimed dq eq (abort_worker dq eq free c s).1
  unfolding abort_worker abort_found
  abort_worker-IsTimed false c s h = h
  abort_worker-IsTimed true c s (ps, u) = elim (Option-cases (Index.get eq c s.running_workers)) [
    | inl g ↦ rw g (ps, u)
    | inr ((handle, k), g) ↦ rw g (
        abort_found-IsTimed c s.expiration_queue (some (handle, k)) s k g
          (All-get eq _ c s.running_workers ps g) (λ i x. refl) ps u)
  ]

  pub gc-IsTimed :
      (free : Bool) (is_finished : J → Bool) (task_is_finished : T → Bool)
      (s : Runner C U Q K J T net)
      → IsTimed dq eq s
      → IsTimed dq eq (gc dq free is_finished task_is_finished s).1
  unfolding gc
  gc-IsTimed false is_finished task_is_finished s h = h
  gc-IsTimed true is_finished task_is_finished s (ps, u) = (
    Timed-forget_finished laws eq is_finished s.running_workers s.expiration_queue ps u,
    Unique-select eq (λ w. not (is_finished w.1.0)) s.running_workers u,
  )

  track-IsTimed :
      (c : C) (handle : J) (timeout : ℕ) (s : Runner C U Q K J T net)
      → IsTimed dq eq s
      → IsTimed dq eq (track dq eq c handle timeout s)
  unfolding track
  track-IsTimed c handle timeout s (ps, u) = (
    All-insert eq _ c (handle, (dq.insert c timeout s.expiration_queue).0) s.running_workers
        (laws.inserted c timeout s.expiration_queue)
        (value-inserted laws eq c timeout s.expiration_queue s.running_workers ps),
    Unique-insert eq c _ s.running_workers u,
  )

  expired_of-IsTimed :
      (now : ℕ) (expired : Option (C × Q)) (s : Runner C U Q K J T net)
      → dq.poll_expired now s.expiration_queue ≡ expired
      → IsTimed dq eq s
      → IsTimed dq eq (expired_of dq eq expired s)
  unfolding expired_of abort_worker
  expired_of-IsTimed now none s e h = h
  expired_of-IsTimed now (some (c, rest)) s e (ps, u) =
      let (j, f, keeps) = laws.expired now s.expiration_queue rest c e in
      abort_found-IsTimed c s.expiration_queue (Index.get eq c s.running_workers)
        (record s { expiration_queue = rest }) j refl f keeps ps u

module _ {C F P U V Q K J T : Type 0} {net : Net} {dq : DelayQueue C Q K} {eq_key : Eq K}
    (laws : IsDelayQueue dq eq_key) (e : Foreign C F P U) (eq : Eq C) where
  pub serve_arm-IsTimed :
      (free : Bool) (arm : Arm C F P U V J T) (s : Runner C U Q K J T net)
      → IsTimed dq eq s
      → IsTimed dq eq (serve_arm dq e eq free arm s)
  unfolding serve_arm run_worker provide_workflow
  serve_arm-IsTimed free (launched (err failure) timeout handle db) s h = h
  serve_arm-IsTimed false (launched (ok w) timeout handle db) s h = h
  serve_arm-IsTimed true (launched (ok w) timeout handle db) s h =
      track-IsTimed laws eq w.workflow_info.cid handle timeout (provide_workflow w s) h
  serve_arm-IsTimed free (dropped c) s h = abort_worker-IsTimed laws eq free c s h
  serve_arm-IsTimed free (tick is_finished task_is_finished) s h =
      gc-IsTimed laws eq free is_finished task_is_finished s h
  serve_arm-IsTimed false (expires now) s h = h
  serve_arm-IsTimed true (expires now) s h =
      expired_of-IsTimed laws eq now (dq.poll_expired now s.expiration_queue) s refl h
  serve_arm-IsTimed free (appended c handles) s h = h

  pub serve-IsTimed :
      (arms : List (Bool × Arm C F P U V J T)) (s : Runner C U Q K J T net)
      → IsTimed dq eq s
      → IsTimed dq eq (serve dq e eq arms s)
  unfolding serve
  serve-IsTimed [] s h = h
  serve-IsTimed ((free, arm) ∷ arms) s h =
      serve-IsTimed arms (serve_arm dq e eq free arm s) (serve_arm-IsTimed free arm s h)

module _ {C F P U V Q K J T : Type 0} (net : Net) {dq : DelayQueue C Q K} {eq_key : Eq K}
    (laws : IsDelayQueue dq eq_key) (e : Foreign C F P U) (eq : Eq C) where
  -- Whatever the arms of the loop and their order, from a new runner: each worker in the
  -- running set has, under its delay key, an entry of its own CID in the expiration queue.
  pub serve-value :
      (arms : List (Bool × Arm C F P U V J T)) (c : C) (handle : J) (key : K)
      → let s = serve dq e eq arms (init {U = U} {T = T} {net = net} dq) in
        Index.get eq c s.running_workers ≡ some (handle, key)
        → dq.value key s.expiration_queue ≡ some c
  serve-value arms c handle key g =
      let s = serve dq e eq arms (init {U = U} {T = T} {net = net} dq) in
      All-get eq (λ w. dq.value w.1.1 s.expiration_queue ≡ some w.0) c s.running_workers
        (serve-IsTimed laws e eq arms (init dq) (tt, tt)).0 g
