-- ===== src/Runtime/Worker/Joined.antt =====
-- What is stored of the tasks that have finished.
use mathlib.Core.Path.{subst}
use homestar.Prelude.{◌≡◌, refl, sym, ap, ◌∙◌, true, Option, some, List, [], ◌∷◌}
use homestar.Prelude.Vec.{All}
use homestar.Prelude.Table.{exists}
use homestar.Prelude.Classes.{Eq}
use homestar.Result.{Result, ok}
use homestar.Ipld.{Ipld}
use homestar.Foreign.{Foreign}
use homestar.Wasm.Io.{Output}
use homestar.Wasm.Value.Component.{Component}
use homestar.Runtime.Receipt.{Receipt, Failure, output_as_arg}
use homestar.Runtime.Resources.{get, insert, Resource}
use homestar.Runtime.Resources.Table.{get-insert_self}
use homestar.Runtime.Graph.{Vertex}
use homestar.Runtime.Scheduler.{Schedule}
use homestar.Runtime.Store.{is_workflow}
use homestar.Runtime.Store.Commit.{IsCommitted, committed}
use homestar.Runtime.Worker.{
  Run, Done, Action, look_up, finish, fail, resolve_cid, resumed, receipt_of, store_finished, join,
}
use homestar.Runtime.Worker.Queue.{Spawned, spawn_batch, run_actions, run_queue}
use homestar.Runtime.Worker.Latest.{same_instruction, latest, get-joined}
use homestar.Runtime.Worker.Resolved.{resolve_cid_of_link}
use homestar.Runtime.Worker.Grows.{
  Grows, resumed-cid, resolve_cid-Grows, resolve_cid-linkmap, join-Grows, run_actions-Grows,
}

module _ {C F P U G H V D : Type 0} (e : Foreign C F P U) (w : Component C F G H V D) where
  -- the action is no failure, and what finishes has a receipt
  abbrev pub Succeeds : Action C F P (Output F G H V) → Type 0
  Succeeds (look_up c answer) = Unit
  Succeeds (finish d) = (r : Receipt C F P) × (receipt_of e w d ≡ ok r)
  Succeeds fail = ⊥

module _ {C F P U A B G H V D : Type 0} (e : Foreign C F P U) (eq : Eq C)
    (w : Component C F G H V D) (from : Ipld C F → A) where
  -- the run's workflow is stored
  abbrev pub HasWorkflow : Run C F P U A B → Type 0
  HasWorkflow s = exists (is_workflow eq s.info.cid) s.db.workflows ≡ true

  HasWorkflow-Grows : (s s' : Run C F P U A B) → Grows eq s s' → HasWorkflow s → HasWorkflow s'
  HasWorkflow-Grows s s' g h = rw (g.workflow, g.kept.workflows) h

  IsCommitted-Grows :
      (r : Receipt C F P) (s s' : Run C F P U A B)
      → Grows eq s s'
      → IsCommitted eq s.info.cid r s.db
      → IsCommitted eq s'.info.cid r s'.db
  IsCommitted-Grows r s s' g (a, b) =
      (g.kept.receipts r.cid.cid a, rw g.workflow (g.kept.rows s.info.cid r.cid.cid b))

  -- A task that has run, whose output has a receipt `r`, is joined: the receipt is stored and joined
  -- to the run's workflow, and a lookup of its instruction finds its output.
  store_finished_lem :
      (r : Receipt C F P) (s : Run C F P U A B)
      → HasWorkflow s
      → let (result, after) = store_finished e eq w from r s in
        (result ≡ ok tt)
        × IsCommitted eq after.info.cid r after.db
        × (get eq r.instruction.cid after.linkmap ≡ some (output_as_arg from r))
  unfolding store_finished
  store_finished_lem r s h =
      let i = resumed s.resume_step s.info in
      let (k, c) = committed eq i.cid r s.db (rw (resumed-cid s.resume_step s.info) h) in
      rw (store_finished, k) (refl, c, get-insert_self eq r.instruction.cid _ s.linkmap)

  -- Where the workflow is stored, joining a task that has run and whose output has a receipt
  -- `r` succeeds: `r` is stored and joined to the workflow, and a lookup of the instruction's
  -- CID in the state afterwards resolves to the output in `r`, without a request, whatever the
  -- network would answer.
  pub resolve_cid-join :
      (eq_rsc : Eq (Resource C U)) (of_bytes : B → A) (d : Done C (Output F G H V) (Ipld C F))
      (r : Receipt C F P) (s : Run C F P U A B) (answer : Option (Receipt C F P))
      → HasWorkflow s
      → receipt_of e w d ≡ ok r
      → let (result, after) = join e eq w from d s in
        (result ≡ ok tt)
        × IsCommitted eq after.info.cid r after.db
        × (resolve_cid eq eq_rsc from of_bytes r.instruction.cid answer after
            ≡ (some (output_as_arg from r), after))
  unfolding join
  resolve_cid-join eq_rsc of_bytes d r s answer h k =
      let (o, c, g) = store_finished_lem r s h in
      rw (join, k) (o, c, resolve_cid_of_link eq eq_rsc from of_bytes r.instruction.cid answer _ g)

  joined :
      (d : Done C (Output F G H V) (Ipld C F)) (r : Receipt C F P) (s : Run C F P U A B)
      → HasWorkflow s
      → receipt_of e w d ≡ ok r
      → let (result, after) = join e eq w from d s in
        (result ≡ ok tt)
        × IsCommitted eq after.info.cid r after.db
        × (after.linkmap ≡ insert eq r.instruction.cid (output_as_arg from r) s.linkmap)
  unfolding join store_finished
  joined d r s h k =
      let i = resumed s.resume_step s.info in
      let (o, c) = committed eq i.cid r s.db (rw (resumed-cid s.resume_step s.info) h) in
      rw (join, k, store_finished, o) (refl, c, refl)

  -- Of each task that has finished, the receipt is stored and joined to the workflow, and in the link
  -- map its instruction has the output of its receipt, or of the last receipt of the instruction.
  abbrev pub AreStored : Run C F P U A B → List (Action C F P (Output F G H V)) → Type 0
  AreStored s [] = Unit
  AreStored s (finish d ∷ actions) =
      ((r : Receipt C F P) × (receipt_of e w d ≡ ok r)
        × IsCommitted eq s.info.cid r s.db
        × (get eq r.instruction.cid s.linkmap
            ≡ some (output_as_arg from (latest e eq w r actions))))
      × AreStored s actions
  AreStored s (look_up c answer ∷ actions) = AreStored s actions
  AreStored s (fail ∷ actions) = AreStored s actions

  module _ (eq_rsc : Eq (Resource C U)) (of_bytes : B → A) where
    after_join :
        (d : Done C (Output F G H V) (Ipld C F)) (actions : List (Action C F P (Output F G H V)))
        (s : Run C F P U A B)
        → (join e eq w from d s).0 ≡ ok tt
        → run_actions e eq eq_rsc w from of_bytes (finish d ∷ actions) s
          ≡ run_actions e eq eq_rsc w from of_bytes actions (join e eq w from d s).1
    unfolding run_actions
    after_join d actions s h = rw (run_actions, h) refl

    run_actions-latest :
        (c : C) (r : Receipt C F P) (actions : List (Action C F P (Output F G H V)))
        (s : Run C F P U A B)
        → c ≡ r.instruction.cid
        → HasWorkflow s
        → All (Succeeds e w) actions
        → get eq c s.linkmap ≡ some (output_as_arg from r)
        → get eq c (run_actions e eq eq_rsc w from of_bytes actions s).1.linkmap
          ≡ some (output_as_arg from (latest e eq w r actions))
    unfolding run_actions
    run_actions-latest c r [] s p h k g = g
    run_actions-latest c r (fail ∷ actions) s p h (k, ks) g = elim k [ ]
    run_actions-latest c r (look_up b answer ∷ actions) s p h (k, ks) g =
        run_actions-latest c r actions _ p
          (HasWorkflow-Grows s _ (resolve_cid-Grows eq eq_rsc from of_bytes b answer s) h) ks
          (resolve_cid-linkmap eq eq_rsc from of_bytes c b answer s g)
    run_actions-latest c r (finish d ∷ actions) s p h ((q, k), ks) g =
        let (o, _, l) = joined d q s h k in
        let (now, names) = get-joined eq from c r q s.linkmap p g in
        subst
          (λ (u : (o : Result Failure (Unit {0})) × Run C F P U A B).
            get eq c u.1.linkmap
            ≡ some (
                output_as_arg from
                  (latest e eq w (same_instruction eq r (receipt_of e w d)) actions)))
          (sym (after_join d actions s o))
          (rw k (
            run_actions-latest c (same_instruction eq r (ok q)) actions (join e eq w from d s).1
              names (HasWorkflow-Grows s _ (join-Grows e eq w from d s) h) ks
              (ap (get eq c) l ∙ now)))

    -- Where the workflow is stored and each task of a batch succeeds, the batch is worked off
    -- with no error, whatever is looked up in between and in whatever order the tasks finish.
    -- In the end the receipt of every task is stored and joined to the workflow, and the link
    -- map has under its instruction the task's output, or that of the last task to finish with
    -- the same instruction, if there is another.
    pub run_actions-AreStored :
        (actions : List (Action C F P (Output F G H V))) (s : Run C F P U A B)
        → HasWorkflow s
        → All (Succeeds e w) actions
        → let (result, after) = run_actions e eq eq_rsc w from of_bytes actions s in
          (result ≡ ok tt) × AreStored after actions
    unfolding run_actions
    run_actions-AreStored [] s h k = (refl, tt)
    run_actions-AreStored (fail ∷ actions) s h (k, ks) = elim k [ ]
    run_actions-AreStored (look_up c answer ∷ actions) s h (k, ks) =
        run_actions-AreStored actions _
          (HasWorkflow-Grows s _ (resolve_cid-Grows eq eq_rsc from of_bytes c answer s) h) ks
    run_actions-AreStored (finish d ∷ actions) s h ((r, k), ks) =
        let (o, c, l) = joined d r s h k in
        let now = (join e eq w from d s).1 in
        let stored = HasWorkflow-Grows s now (join-Grows e eq w from d s) h in
        let (o', a) = run_actions-AreStored actions now stored ks in
        subst
          (λ (p : (o : Result Failure (Unit {0})) × Run C F P U A B).
            (p.0 ≡ ok tt) × AreStored p.1 (finish d ∷ actions))
          (sym (after_join d actions s o))
          (
            o',
            (
              (
                r,
                k,
                IsCommitted-Grows r now _
                    (run_actions-Grows e eq w from eq_rsc of_bytes actions now) c,
                run_actions-latest r.instruction.cid r actions now refl stored ks (
                    ap (get eq r.instruction.cid) l
                    ∙ get-insert_self eq r.instruction.cid (output_as_arg from r) s.linkmap),
              ),
              a,
            ),
          )

    -- Where the workflow is stored, every node of the schedule can be spawned from the
    -- resources of the run, and every task succeeds, the queue is run to its end with no error.
    pub run_queue-ok :
        (into : A → Ipld C F)
        (act : Run C F P U A B → List (Spawned C F A B) → List (Action C F P (Output F G H V)))
        (schedule : Schedule (Vertex C F U A)) (s : Run C F P U A B)
        → HasWorkflow s
        → All
            (λ batch.
              (tasks : List (Spawned C F A B)) × (spawn_batch e eq_rsc into s.resources batch
                ≡ ok tasks))
            schedule
        → ((now : Run C F P U A B) (tasks : List (Spawned C F A B))
            → All (Succeeds e w) (act now tasks))
        → (run_queue e eq eq_rsc w from of_bytes into act schedule s).0 ≡ ok tt
    unfolding run_queue
    run_queue-ok into act [] s h sp k = refl
    run_queue-ok into act (batch ∷ batches) s h ((tasks, p), ps) k =
        let (o, a) = run_actions-AreStored (act s tasks) s h (k s tasks) in
        let g = run_actions-Grows e eq w from eq_rsc of_bytes (act s tasks) s in
        rw (run_queue, p, o)
          (run_queue-ok into act batches _ (HasWorkflow-Grows s _ g h) (rw g.resources ps) k)
