-- ===== src/Runtime/Runner.antt =====
-- homestar-runtime/src/runner.rs: the workers and tasks that run, and their garbage collection and
-- abortion. A `JoinHandle` is a `J`, a task's `AbortHandle` a `T`; whether one is finished is an
-- argument, and the calls of `abort` are a list. `tokio_util`'s `DelayQueue` is a parameter, with
-- queues `Q` and keys `K`. `free` says whether `try_borrow_mut` of the queue succeeds.
pub mod Keys
pub mod Launch
pub mod Serve
pub mod Replayed
pub mod Collected
pub mod Entries
pub mod Timed
pub mod Answers
use homestar.Prelude.{ℕ, ◌≡◌, Bool, true, false, Option, none, some, List, [], ◌∷◌, ◌++◌, not, map}
use homestar.Prelude.Classes.{Eq}
use homestar.Prelude.Table.{select}
use homestar.Result.{Result, ok, err}
use homestar.Runtime.Receipt.{Failure, failed}
use homestar.Runtime.Resources as Index
use homestar.Runtime.Handler.{Net, Event}
use homestar.Runtime.Handler.Calls.{remove}

pub record DelayQueue (C Q K : Type 0) : Type 0 where
  pub empty : Q
  pub insert : C → ℕ → Q → K × Q
  pub try_remove : K → Q → Q
  pub clear : Q → Q
  -- at a time, the value of an entry that has expired, and the queue without it
  pub poll_expired : ℕ → Q → Option (C × Q)
  -- what an entry is for
  pub value : K → Q → Option C

-- What the crate states of these: a new entry has a key that no entry has, and an operation on one
-- entry leaves the others as they are.
pub record IsDelayQueue {C Q K : Type 0} (dq : DelayQueue C Q K) (eq_key : Eq K) : Type 0 where
  pub inserted : (c : C) (t : ℕ) (q : Q) → dq.value (dq.insert c t q).0 (dq.insert c t q).1 ≡ some c
  pub new_key : (c : C) (t : ℕ) (q : Q) → dq.value (dq.insert c t q).0 q ≡ none
  pub insert_keeps :
      (c : C) (t : ℕ) (q : Q) (k : K)
      → eq_key.beq k (dq.insert c t q).0 ≡ false
      → dq.value k (dq.insert c t q).1 ≡ dq.value k q
  pub remove_keeps :
      (j k : K) (q : Q) → eq_key.beq k j ≡ false → dq.value k (dq.try_remove j q) ≡ dq.value k q
  pub expired :
      (now : ℕ) (q rest : Q) (c : C)
      → dq.poll_expired now q ≡ some (c, rest)
      → (j : K) × (dq.value j q ≡ some c)
        × ((k : K) → eq_key.beq k j ≡ false → dq.value k rest ≡ dq.value k q)

pub data Handle (J T : Type 0) : Type 0 where
  worker : J → Handle J T
  task : T → Handle J T

pub record Runner (C U Q K J T : Type 0) (net : Net) : Type 0 where
  pub expiration_queue : Q
  pub running_tasks : List (C × List T)
  pub running_workers : List (C × (J × K))
  -- the handles whose `abort` was called, and what was sent to the event handler
  pub aborted : List (Handle J T)
  pub sent : List (Event C U net)

module _ {C V : Type 0} (eq : Eq C) where
  -- `append_or_insert`
  unfoldable pub append_or_insert : C → List V → List (C × List V) → List (C × List V)
  append_or_insert cid handles [] = (cid, handles) ∷ []
  append_or_insert cid handles ((c, prev_handles) ∷ m) =
      let rest = append_or_insert cid handles m in
      elim (eq.beq cid c) [
        | true ↦ (c, prev_handles ++ handles) ∷ m
        | false ↦ (c, prev_handles) ∷ rest
      ]

-- `retain` on the running tasks: the handles that are not finished, where there are any
abbrev pub with_handles {ℓ} :
    {C : Type 0} {T : Type ℓ} → C → List T → List (C × List T) → List (C × List T)
with_handles c [] m = m
with_handles c (handle ∷ handles) m = (c, handle ∷ handles) ∷ m

unfoldable pub retain_tasks : {C T : Type 0} → (T → Bool) → List (C × List T) → List (C × List T)
retain_tasks is_finished [] = []
retain_tasks is_finished ((c, handles) ∷ m) =
    with_handles c (select (λ h. not (is_finished h)) handles) (retain_tasks is_finished m)

abbrev pub all_tasks : {C J T : Type 0} → List (C × List T) → List (Handle J T)
all_tasks [] = []
all_tasks ((c, handles) ∷ m) = map task handles ++ all_tasks m

abbrev pub all_workers : {C J K T : Type 0} → List (C × (J × K)) → List (Handle J T)
all_workers [] = []
all_workers ((c, (handle, key)) ∷ m) = worker handle ∷ all_workers m

abbrev pub borrowed : Bool → Result Failure (Unit {0})
borrowed true = ok tt
borrowed false = err failed

module _ {C Q K J : Type 0} (dq : DelayQueue C Q K) where
  -- the entries of the workers that are finished leave the queue
  unfoldable pub forget_finished : (J → Bool) → List (C × (J × K)) → Q → Q
  forget_finished is_finished [] q = q
  forget_finished is_finished ((c, (handle, key)) ∷ m) q =
      let kept = forget_finished is_finished m q in
      elim (is_finished handle) [
        | true ↦ forget_finished is_finished m (dq.try_remove key q)
        | false ↦ kept
      ]

module _ {C U Q K J T : Type 0} {net : Net} where
  unfoldable pub abort_tasks : Runner C U Q K J T net → Runner C U Q K J T net
  abort_tasks s = record s { aborted = s.aborted ++ all_tasks s.running_tasks }

  unfoldable pub abort_workers : Runner C U Q K J T net → Runner C U Q K J T net
  unfolding abort_tasks
  abort_workers s = abort_tasks (record s { aborted = s.aborted ++ all_workers s.running_workers })

  unfoldable pub cleanup_tasks : Runner C U Q K J T net → Runner C U Q K J T net
  cleanup_tasks s = record s { running_tasks = [] }

module _ {C U Q K J T : Type 0} {net : Net} (dq : DelayQueue C Q K) where
  -- `Runner::init`
  abbrev pub init : Runner C U Q K J T net
  init = record {
    expiration_queue = dq.empty;
    running_tasks = [];
    running_workers = [];
    aborted = [];
    sent = [];
  }

  abbrev pub gc_workers : Bool → (J → Bool) → Runner C U Q K J T net → Runner C U Q K J T net
  gc_workers false is_finished s = s
  gc_workers true is_finished s = record s {
    expiration_queue = forget_finished dq is_finished s.running_workers s.expiration_queue;
    running_workers = select (λ w. not (is_finished w.1.0)) s.running_workers;
  }

  unfoldable pub gc :
      Bool
      → (J → Bool)
      → (T → Bool)
      → Runner C U Q K J T net
      → Result Failure (Unit {0}) × Runner C U Q K J T net
  gc free is_finished task_is_finished s = (
    borrowed free,
    gc_workers free is_finished
        (record s { running_tasks = retain_tasks task_is_finished s.running_tasks }),
  )

  -- The workers are cleared before the queue is borrowed, the tasks after.
  abbrev pub cleanup_queue : Bool → Runner C U Q K J T net → Runner C U Q K J T net
  unfolding cleanup_tasks
  cleanup_queue false s = s
  cleanup_queue true s = cleanup_tasks (record s { expiration_queue = dq.clear s.expiration_queue })

  unfoldable pub cleanup_workers :
      Bool → Runner C U Q K J T net → Result Failure (Unit {0}) × Runner C U Q K J T net
  cleanup_workers free s = (borrowed free, cleanup_queue free (record s { running_workers = [] }))

  unfoldable pub abort_and_cleanup_workers :
      Bool → Runner C U Q K J T net → Result Failure (Unit {0}) × Runner C U Q K J T net
  unfolding abort_workers cleanup_workers
  abort_and_cleanup_workers free s = cleanup_workers free (abort_workers s)

module _ {C U Q K J T : Type 0} {net : Net} (eq : Eq C) where
  abbrev pub abort_handles : C → Option (List T) → Runner C U Q K J T net → Runner C U Q K J T net
  abort_handles cid none s = s
  abort_handles cid (some handles) s = record s {
    running_tasks = remove eq cid s.running_tasks;
    aborted = s.aborted ++ map task handles;
  }

  unfoldable pub abort_worker_tasks : C → Runner C U Q K J T net → Runner C U Q K J T net
  abort_worker_tasks cid s = abort_handles cid (Index.get eq cid s.running_tasks) s

module _ {C U Q K J T : Type 0} {net : Net} (dq : DelayQueue C Q K) (eq : Eq C) where
  -- `if let Some(..) = self.running_workers.remove(&cid)`
  abbrev pub abort_found : C → Option (J × K) → Runner C U Q K J T net → Runner C U Q K J T net
  unfolding abort_worker_tasks
  abort_found cid none s = s
  abort_found cid (some (handle, delay_key)) s = abort_worker_tasks eq cid (record s {
    expiration_queue = dq.try_remove delay_key s.expiration_queue;
    running_workers = remove eq cid s.running_workers;
    aborted = s.aborted ++ worker handle ∷ [];
  })

  unfoldable pub abort_worker :
      Bool → C → Runner C U Q K J T net → Result Failure (Unit {0}) × Runner C U Q K J T net
  abort_worker false cid s = (err failed, s)
  abort_worker true cid s = (ok tt, abort_found cid (Index.get eq cid s.running_workers) s)
