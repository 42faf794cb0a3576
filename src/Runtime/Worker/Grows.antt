-- ===== src/Runtime/Worker/Grows.antt =====
-- What no action of a run takes away.
use mathlib.Core.Path.{subst}
use homestar.Prelude.{
  ℕ, ◌≤◌, ◌≡◌, refl, sym, ◌∙◌, Option, none, some, List, [], ◌∷◌, inl, inr, Option-cases, arith,
}
use homestar.Prelude.Classes.{Eq}
use homestar.Result.{Result-cases}
use homestar.Ipld.{Ipld}
use homestar.Core.InstructionResult.{InstructionResult}
use homestar.Foreign.{Foreign}
use homestar.Wasm.Io.{Output}
use homestar.Wasm.Value.Component.{Component}
use homestar.Runtime.Info.{Info}
use homestar.Runtime.Receipt.{Receipt, output_as_arg}
use homestar.Runtime.Resources.{get, insert, Resource, cid}
use homestar.Runtime.Resources.Table.{
  Present, Present-insert, Present-insert_new, get-insert_new_kept,
}
use homestar.Runtime.Graph.{Vertex}
use homestar.Runtime.Scheduler.{Schedule}
use homestar.Runtime.Store.{find_instruction_by_cid, commit_receipt}
use homestar.Runtime.Store.Consistent.{IsConsistent, commit_receipt-IsConsistent}
use homestar.Runtime.Store.Kept.{Keeps, Keeps-refl, Keeps-trans, commit_receipt-Keeps}
use homestar.Runtime.Worker.{
  Run, Event, Done, Action, look_up, finish, fail, take_found, ask, resolve_cid, resumed,
  receipt_of, store_finished, join,
}
use homestar.Runtime.Worker.Queue.{Spawned, spawn_batch, run_actions, run_queue}
use homestar.Runtime.Worker.Resolved.{
  resolve_cid_of_link, to_resources, of_resource, to_db, of_db, to_network,
}

module _ {C F P U A B : Type 0} (eq : Eq C) where
  -- tables that were consistent are so, what was stored, joined or linked still is, the progress is
  -- no smaller, and the workflow, its resources and the step it resumes from are the same
  pub record Grows (s s' : Run C F P U A B) : Type 0 where
    pub tables : IsConsistent eq s.db → IsConsistent eq s'.db
    pub kept : Keeps eq s.db s'.db
    pub linked : (c : C) → Present eq c s.linkmap → Present eq c s'.linkmap
    pub progress : s.info.progress_count ≤ s'.info.progress_count
    pub workflow : s'.info.cid ≡ s.info.cid
    pub resources : s'.resources ≡ s.resources
    pub resume_step : s'.resume_step ≡ s.resume_step

  pub Grows-refl : (s : Run C F P U A B) → Grows s s
  Grows-refl s = record {
    tables = λ h. h;
    kept = Keeps-refl eq s.db;
    linked = λ c h. h;
    progress = omega arith;
    workflow = refl;
    resources = refl;
    resume_step = refl;
  }

  pub Grows-trans : (a b c : Run C F P U A B) → Grows a b → Grows b c → Grows a c
  Grows-trans a b c h k = record {
    tables = λ t. k.tables (h.tables t);
    kept = Keeps-trans eq a.db b.db c.db h.kept k.kept;
    linked = λ d p. k.linked d (h.linked d p);
    progress = omega (arith, h.progress, k.progress);
    workflow = k.workflow ∙ h.workflow;
    resources = k.resources ∙ h.resources;
    resume_step = k.resume_step ∙ h.resume_step;
  }

  module _ (eq_rsc : Eq (Resource C U)) (from : Ipld C F → A) (of_bytes : B → A) where
    ask-Grows :
        (c : C) (answer : Option (Receipt C F P)) (s : Run C F P U A B)
        → Grows s (ask eq eq_rsc from of_bytes c answer s).1
    unfolding ask take_found
    ask-Grows c none s = record {
      tables = λ h. h;
      kept = Keeps-refl eq s.db;
      linked = λ d h. h;
      progress = omega arith;
      workflow = refl;
      resources = refl;
      resume_step = refl;
    }
    ask-Grows c (some found) s = record {
      tables = commit_receipt-IsConsistent eq s.info.cid found s.db;
      kept = commit_receipt-Keeps eq s.info.cid found s.db;
      linked = λ d p. Present-insert_new eq d c _ s.linkmap p;
      progress = omega arith;
      workflow = refl;
      resources = refl;
      resume_step = refl;
    }

    -- What holds of the state and of the state after a request, holds after a resolution.
    pub resolve_cid-either :
        (Q : Run C F P U A B → Type 0) (c : C) (answer : Option (Receipt C F P))
        (s : Run C F P U A B)
        → Q s
        → Q (ask eq eq_rsc from of_bytes c answer s).1
        → Q (resolve_cid eq eq_rsc from of_bytes c answer s).1
    resolve_cid-either Q c answer s here asked =
        let to = λ (p : (o : Option (InstructionResult A)) × Run C F P U A B). Q p.1 in
        elim (Option-cases (get eq c s.linkmap)) [
          | inr (x, e) ↦
              subst to (sym (resolve_cid_of_link eq eq_rsc from of_bytes c answer s e)) here
          | inl e ↦
              subst to (sym (to_resources eq eq_rsc from of_bytes c answer s e))
                (elim (Option-cases (get eq_rsc (cid c) s.resources)) [
                  | inr (b, f) ↦
                      subst to (sym (of_resource eq eq_rsc from of_bytes c answer s f)) here
                  | inl f ↦
                      subst to (sym (to_db eq eq_rsc from of_bytes c answer s f))
                        (elim (Result-cases (find_instruction_by_cid eq c s.db)) [
                          | inl (found, g) ↦
                              subst to (sym (of_db eq eq_rsc from of_bytes c answer s g)) here
                          | inr (_, g) ↦
                              subst to (sym (to_network eq eq_rsc from of_bytes c answer s g)) asked
                        ])
                ])
        ]

    pub resolve_cid-Grows :
        (c : C) (answer : Option (Receipt C F P)) (s : Run C F P U A B)
        → Grows s (resolve_cid eq eq_rsc from of_bytes c answer s).1
    resolve_cid-Grows c answer s =
        resolve_cid-either (Grows s) c answer s (Grows-refl s) (ask-Grows c answer s)

    -- A resolution replaces nothing in the link map.
    pub resolve_cid-linkmap :
        (k c : C) (answer : Option (Receipt C F P)) (s : Run C F P U A B)
        {result : InstructionResult A}
        → get eq k s.linkmap ≡ some result
        → get eq k (resolve_cid eq eq_rsc from of_bytes c answer s).1.linkmap ≡ some result
    unfolding ask take_found
    resolve_cid-linkmap k c none s {result} h =
        resolve_cid-either (λ t. get eq k t.linkmap ≡ some result) c none s h h
    resolve_cid-linkmap k c (some found) s {result} h =
        resolve_cid-either (λ t. get eq k t.linkmap ≡ some result) c (some found) s h
          (get-insert_new_kept eq k c _ s.linkmap h)

pub resumed-cid : {C U : Type 0} (step : Option ℕ) (i : Info C U) → (resumed step i).cid ≡ i.cid
unfolding resumed
resumed-cid none i = refl
resumed-cid (some step) i = refl

resumed-progress_count :
    {C U : Type 0} (step : Option ℕ) (i : Info C U)
    → i.progress_count ≤ (resumed step i).progress_count
unfolding resumed
resumed-progress_count none i = omega arith
resumed-progress_count (some step) i = omega arith

module _ {C F P U A B G H V D : Type 0} (e : Foreign C F P U) (eq : Eq C)
    (w : Component C F G H V D) (from : Ipld C F → A) where
  -- the state with a receipt in the link map and in the tables
  abbrev pub stored : Receipt C F P → List (Event C U) → Run C F P U A B → Run C F P U A B
  stored r sent s = record s {
    linkmap = insert eq r.instruction.cid (output_as_arg from r) s.linkmap;
    info = resumed s.resume_step s.info;
    db = (commit_receipt eq (resumed s.resume_step s.info).cid r s.db).1;
    sent = sent;
  }

  stored-Grows :
      (r : Receipt C F P) (sent : List (Event C U)) (s : Run C F P U A B)
      → Grows eq s (stored r sent s)
  stored-Grows r sent s = record {
    tables = commit_receipt-IsConsistent eq _ r s.db;
    kept = commit_receipt-Keeps eq _ r s.db;
    linked = λ d p. Present-insert eq d r.instruction.cid _ s.linkmap p;
    progress = resumed-progress_count s.resume_step s.info;
    workflow = resumed-cid s.resume_step s.info;
    resources = refl;
    resume_step = refl;
  }

  store_finished-Grows :
      (r : Receipt C F P) (s : Run C F P U A B) → Grows eq s (store_finished e eq w from r s).1
  unfolding store_finished
  store_finished-Grows r s =
      elim (Result-cases (commit_receipt eq (resumed s.resume_step s.info).cid r s.db).0) [
        | inl (kept, h) ↦ rw (store_finished, h) (stored-Grows r _ s)
        | inr (f, h) ↦ rw (store_finished, h) (stored-Grows r s.sent s)
      ]

  pub join-Grows :
      (d : Done C (Output F G H V) (Ipld C F)) (s : Run C F P U A B)
      → Grows eq s (join e eq w from d s).1
  unfolding join
  join-Grows d s = elim (Result-cases (receipt_of e w d)) [
    | inl (r, h) ↦ rw (join, h) (store_finished-Grows r s)
    | inr (f, h) ↦ rw (join, h) (Grows-refl eq s)
  ]

  module _ (eq_rsc : Eq (Resource C U)) (of_bytes : B → A) where
    pub run_actions-Grows :
        (actions : List (Action C F P (Output F G H V))) (s : Run C F P U A B)
        → Grows eq s (run_actions e eq eq_rsc w from of_bytes actions s).1
    unfolding run_actions
    run_actions-Grows [] s = Grows-refl eq s
    run_actions-Grows (fail ∷ actions) s = Grows-refl eq s
    run_actions-Grows (look_up c answer ∷ actions) s =
        Grows-trans eq s _ _ (resolve_cid-Grows eq eq_rsc from of_bytes c answer s)
          (run_actions-Grows actions _)
    run_actions-Grows (finish d ∷ actions) s = elim (Result-cases (join e eq w from d s).0) [
      | inl (_, h) ↦
          rw (run_actions, h) (Grows-trans eq s _ _ (join-Grows d s) (run_actions-Grows actions _))
      | inr (f, h) ↦ rw (run_actions, h) (join-Grows d s)
    ]

    -- Whatever the tasks of the batches look up, and in whatever order they finish or fail, a
    -- run of the queue keeps consistent tables consistent, loses no receipt, no row that joins
    -- one to a workflow and no entry of the link map, does not lower the progress, and leaves
    -- the stored workflows, the run's workflow and its resources as they are, also where it
    -- ends in an error.
    pub run_queue-Grows :
        (into : A → Ipld C F)
        (act : Run C F P U A B → List (Spawned C F A B) → List (Action C F P (Output F G H V)))
        (schedule : Schedule (Vertex C F U A)) (s : Run C F P U A B)
        → Grows eq s (run_queue e eq eq_rsc w from of_bytes into act schedule s).1
    unfolding run_queue
    run_queue-Grows into act [] s = Grows-refl eq s
    run_queue-Grows into act (batch ∷ batches) s =
        elim (Result-cases (spawn_batch e eq_rsc into s.resources batch)) [
          | inr (f, h) ↦ rw (run_queue, h) (Grows-refl eq s)
          | inl (tasks, h) ↦
              let ran = run_actions e eq eq_rsc w from of_bytes (act s tasks) s in
              elim (Result-cases ran.0) [
                | inr (f, k) ↦ rw (run_queue, h, k) (run_actions-Grows (act s tasks) s)
                | inl (_, k) ↦
                    rw (run_queue, h, k)
                      (Grows-trans eq s ran.1 _ (run_actions-Grows (act s tasks) s)
                        (run_queue-Grows into act batches ran.1))
              ]
        ]
