-- ===== src/Runtime/Graph/Entries.antt =====
-- The scheduler's reading of a graph: every node names an instruction that has resources.
use mathlib.Core.Path.{subst}
use homestar.Prelude.{
  ℕ, ◌+◌, ◌≡◌, refl, sym, Option, some, List, [], ◌∷◌, ◌++◌, map, inl, inr, Bool-cases,
}
use homestar.Prelude.Vec.{All, All-append}
use homestar.Prelude.Classes.{Eq}
use homestar.Result.{ok, ok_or, ok_or-eq-ok, >>=-eq-ok, ok-injective}
use homestar.Ipld.{Ipld}
use homestar.Foreign.{Foreign, IsForeign}
use homestar.Core.Task.{Task, Workflow}
use homestar.Core.Pointer.{Pointer, new}
use homestar.Runtime.Resources.{get, insert_new, IndexedResources, Resource, cid, url}
use homestar.Runtime.Resources.Table.{Present, Present-insert_new, Present-insert_new_self}
use homestar.Runtime.Receipt.{failed}
use homestar.Core.Input.Defs.{links}
use homestar.Runtime.Scheduler.{node_entry, ExecutionGraph}
use homestar.Runtime.Scheduler.Search.{instructions}
use homestar.Runtime.Graph.{
  Vertex, DagNode, Aot, empty, add_task, place, contains, aot_step, aot_fold, aot, lookup_table,
  push_resource, push_links, to_node, graph,
}
use homestar.Runtime.Graph.Step.{Added, aot_step-Added}

module _ {C U : Type 0} (eq : Eq C) where
  Present-push_resource :
      (k j : C) (r : Resource C U) (m : List (C × List (Resource C U)))
      → Present eq k m
      → Present eq k (push_resource eq j r m)
  unfolding push_resource get
  Present-push_resource k j r [] (v, h) = cc
  Present-push_resource k j r ((l, rs) ∷ m) (v, h) = elim (Bool-cases (eq.beq j l)) [
    | inl q ↦ elim (Bool-cases (eq.beq k l)) [
      | inl p ↦ rw (q, p) (rs ++ r ∷ [], refl)
      | inr p ↦ rw (q, p) (v, rw p at h)
    ]
    | inr q ↦ elim (Bool-cases (eq.beq k l)) [
      | inl p ↦ rw (q, p) (rs, refl)
      | inr p ↦ rw (q, p) (Present-push_resource k j r m (v, rw p at h))
    ]
  ]

  Present-push_links :
      (k j : C) (cs : List C) (m : List (C × List (Resource C U)))
      → Present eq k m
      → Present eq k (push_links eq j cs m)
  unfolding push_links
  Present-push_links k j [] m h = h
  Present-push_links k j (c ∷ cs) m h =
      Present-push_links k j cs (push_resource eq j (cid c) m)
        (Present-push_resource k j (cid c) m h)

module _ {C F P U T : Type 0} (e : Foreign C F P U) (eq : Eq C) (into : T → Ipld C F)
    (from : Ipld C F → T) (spec : IsForeign e) where
  -- a node's name is the CID of a key of the map
  abbrev Named : List (C × List (Resource C U)) → DagNode (Vertex C F U T) → Type 0
  Named m n = (c : C) × (e.cid_from_str n.name ≡ some c) × Present eq c m

  abbrev AllNamed : Aot C F U T → Type 0
  AllNamed s = All (Named s.resources) s.dag × All (Named s.resources) s.unawaits

  Named-mono :
      (m m' : List (C × List (Resource C U)))
      → ((c : C) → Present eq c m → Present eq c m')
      → (ns : List (DagNode (Vertex C F U T))) → All (Named m) ns
      → All (Named m') ns
  Named-mono m m' f [] k = tt
  Named-mono m m' f (n ∷ ns) ((c, h, p), ks) = ((c, h, f c p), Named-mono m m' f ns ks)

  AllNamed-add_task :
      (s : Aot C F U T) (n : DagNode (Vertex C F U T)) (reads : List ℕ)
      (m : List (C × List (Resource C U)))
      → ((c : C) → Present eq c s.resources → Present eq c m)
      → Named m n
      → AllNamed s
      → AllNamed (add_task s n reads m)
  unfolding add_task
  AllNamed-add_task s n [] m f k (d, u) = (
    Named-mono s.resources m f s.dag d,
    All-append (Named m) s.unawaits (n ∷ []) (Named-mono s.resources m f s.unawaits u) (k, tt),
  )
  AllNamed-add_task s n (r ∷ rs) m f k (d, u) = (
    All-append (Named m) s.dag (record n { reads = r ∷ rs } ∷ [])
        (Named-mono s.resources m f s.dag d) (k, tt),
    Named-mono s.resources m f s.unawaits u,
  )

  AllNamed-Added :
      (table : List (C × ℕ)) (i : ℕ) (t : Task C F U T) (s s' : Aot C F U T)
      → Added e eq into from table i t s s'
      → AllNamed s
      → AllNamed s'
  AllNamed-Added table i t s s' a k =
      let c = a.instr_cid in
      let cs = links a.parsed.args.inner in
      let first = insert_new eq c (url a.instr.rsc ∷ []) s.resources in
      subst AllNamed (sym a.after_is) (
        AllNamed-add_task s _ _ (push_links eq c cs first)
          (λ d p. Present-push_links eq d c cs first (Present-insert_new eq d c _ s.resources p))
          (
            c,
            spec.cid_text c,
            Present-push_links eq c c cs first (Present-insert_new_self eq c _ s.resources),
          )
          k)

  AllNamed-aot_fold :
      (table : List (C × ℕ)) (i : ℕ) (ts : List (Task C F U T)) (s s' : Aot C F U T)
      → aot_fold e eq into from table i ts s ≡ ok s'
      → AllNamed s
      → AllNamed s'
  unfolding aot_fold
  AllNamed-aot_fold table i [] s s' h k = subst AllNamed (ok-injective h) k
  AllNamed-aot_fold table i (t ∷ ts) s s' h k =
      let (s1, h1, h2) = >>=-eq-ok (aot_step e eq into from table i t s) _ h in
      AllNamed-aot_fold table (i + 1) ts s1 s' h2
        (AllNamed-Added table i t s s1 (aot_step-Added e eq into from table i t s h1) k)

  Named-place :
      (m : List (C × List (Resource C U))) (awaited : List ℕ) (ns : List (DagNode (Vertex C F U T)))
      → All (Named m) ns
      → All (Named m) (map (place awaited) ns)
  unfolding place
  Named-place m awaited [] k = tt
  Named-place m awaited (n ∷ ns) (k, ks) = (
    elim (Bool-cases (contains n.result awaited)) [ inl q ↦ rw q k | inr q ↦ rw q k ],
    Named-place m awaited ns ks,
  )

  aot-Named :
      (w : Workflow C F U T) (nodes : List (DagNode (Vertex C F U T))) (rs : IndexedResources C U)
      → aot e eq into from w ≡ ok (nodes, rs)
      → All (Named rs.map) nodes
  unfolding aot
  aot-Named w nodes rs h =
      let (table, h0, h1) = >>=-eq-ok (lookup_table e eq into from w) _ h in
      let (s, h2, h3) = >>=-eq-ok (aot_fold e eq into from table 0 w.tasks empty) _ h1 in
      let (d, u) = AllNamed-aot_fold table 0 w.tasks empty s h2 (tt, tt) in
      subst (λ p. All (Named p.1.map) p.0) (ok-injective h3)
        (All-append (Named s.resources) s.dag _ d (Named-place s.resources s.awaited s.unawaits u))

  node_entry_of :
      (rs : IndexedResources C U) (n : DagNode (Vertex C F U T)) {c : C} {v : List (Resource C U)}
      → e.cid_from_str n.name ≡ some c
      → get eq c rs.map ≡ some v
      → node_entry eq e.cid_from_str rs (to_node n) ≡ some (c, v)
  unfolding node_entry
  node_entry_of rs n h p = rw (node_entry, h, p) refl

  instructions_of :
      (rs : IndexedResources C U) (batch : List (DagNode (Vertex C F U T)))
      → All (Named rs.map) batch
      → (ptrs : List (Pointer C)) × (instructions eq e.cid_from_str rs (map to_node batch)
          ≡ some ptrs)
  unfolding instructions
  instructions_of rs [] k = ([], refl)
  instructions_of rs (n ∷ ns) ((c, h, (v, p)), ks) =
      let (ptrs, q) = instructions_of rs ns ks in
      (new c ∷ ptrs, rw (instructions, node_entry_of rs n h p, q))

  schedule_instructions :
      (rs : IndexedResources C U) (batches : List (List (DagNode (Vertex C F U T))))
      → All (All (Named rs.map)) batches
      → All
          (λ b. (ptrs : List (Pointer C)) × (instructions eq e.cid_from_str rs b ≡ some ptrs))
          (map (map to_node) batches)
  schedule_instructions rs [] k = tt
  schedule_instructions rs (b ∷ bs) (k, ks) =
      (instructions_of rs b k, schedule_instructions rs bs ks)

  -- Where the texts of CIDs parse back, the batches of `build_schedule` consist of nodes of the
  -- graph and `graph` succeeds, the scheduler reads every batch of the schedule: each node's
  -- name is the text of a CID that has resources in the graph's index.
  pub instructions-graph :
      (build_schedule : List (DagNode (Vertex C F U T))
        → Option (List (List (DagNode (Vertex C F U T)))))
      → ((dag : List (DagNode (Vertex C F U T))) (batches : List (List (DagNode (Vertex C F U T))))
          → build_schedule dag ≡ some batches
          → (Q : DagNode (Vertex C F U T) → Type 0) → All Q dag
          → All (All Q) batches)
      → (w : Workflow C F U T) (g : ExecutionGraph C U (Vertex C F U T))
      → graph e eq into from build_schedule w ≡ ok g
      → All
          (λ b.
            (ptrs : List (Pointer C)) × (instructions eq e.cid_from_str g.indexed_resources b
              ≡ some ptrs))
          g.schedule
  unfolding graph
  instructions-graph build_schedule selects w g h =
      let ((dag, rs), h0, h1) = >>=-eq-ok (aot e eq into from w) _ h in
      let (batches, h2, h3) = >>=-eq-ok (ok_or (build_schedule dag) failed) _ h1 in
      subst
        (λ g.
          All
            (λ b.
              (ptrs : List (Pointer C)) × (instructions eq e.cid_from_str g.indexed_resources b
                ≡ some ptrs))
            g.schedule)
        (ok-injective h3)
        (schedule_instructions rs batches (
          selects dag batches (ok_or-eq-ok (build_schedule dag) failed h2) (Named rs.map)
            (aot-Named w dag rs h0)))
