-- ===== src/Runtime/Graph/Reads.antt =====
-- The reads of a graph's nodes: the tasks that their arguments await.
use mathlib.Core.Path.{subst}
use homestar.Prelude.{
  ℕ, ◌+◌, ◌≡◌, refl, sym, ap, ◌∙◌, Bool, true, false, none, some, List, [], ◌∷◌, map, ◌||◌, ◌==◌,
  inl, inr, Bool-cases, Option-cases, arith,
}
use homestar.Prelude.Vec.{All, All-append, All-imp}
use homestar.Prelude.Table.{exists}
use homestar.Prelude.Classes.{Eq}
use homestar.Result.{ok, >>=-eq-ok, ok-injective}
use homestar.Ipld.{Ipld}
use homestar.Foreign.{Foreign}
use homestar.Core.Input.Defs.{deferreds}
use homestar.Core.Task.{Task, Workflow}
use homestar.Runtime.Resources as Index
use homestar.Runtime.Resources.{IndexedResources, Resource}
use homestar.Runtime.Resources.Table.{beq_eq, beq_self}
use homestar.Runtime.Graph.{
  Vertex, DagNode, Aot, empty, known, add_task, place, contains, aot_step, aot_fold, aot,
  lookup_table,
}
use homestar.Runtime.Graph.Step.{aot_step-Added}
use homestar.Runtime.Graph.Lookup.{IsTask, lookup_table_sound, lookup_table_complete}

||-true : (b : Bool) → (b || true) ≡ true
||-true true = refl
||-true false = refl

module _ {C : Type 0} (eq : Eq C) (table : List (C × ℕ)) where
  known_of_none :
      (c : C) (cs : List C)
      → Index.get eq c table ≡ none
      → known eq table (c ∷ cs) ≡ known eq table cs
  unfolding known
  known_of_none c cs h = rw (known, h) refl

  known_of_some :
      (c : C) (cs : List C) {j : ℕ}
      → Index.get eq c table ≡ some j
      → known eq table (c ∷ cs) ≡ j ∷ known eq table cs
  unfolding known
  known_of_some c cs h = rw (known, h) refl

module _ {C : Type 0} (eq : Eq C) where
  -- what is known was looked up, and what is looked up is known
  known_sound :
      (P : C → ℕ → Type 0) (table : List (C × ℕ))
      → ((c : C) (j : ℕ) → Index.get eq c table ≡ some j → P c j)
      → (cs : List C)
      → All (λ r. (c : C) × (exists (eq.beq c) cs ≡ true) × P c r) (known eq table cs)
  unfolding known exists
  known_sound P table h [] = tt
  known_sound P table h (c ∷ cs) =
      let rest =
        All-imp _ _ (known eq table cs) (λ r (d, m, p). (d, rw m (||-true (eq.beq d c)), p))
          (known_sound P table h cs) in
      elim (Option-cases (Index.get eq c table)) [
        | inl g ↦ subst (All _) (sym (known_of_none eq table c cs g)) rest
        | inr (j, g) ↦
            subst (All _) (sym (known_of_some eq table c cs g))
              ((c, rw (beq_self eq c), h c j g), rest)
      ]

  known_complete :
      (table : List (C × ℕ)) (cs : List C) (c : C) (j : ℕ)
      → exists (eq.beq c) cs ≡ true
      → Index.get eq c table ≡ some j
      → contains j (known eq table cs) ≡ true
  unfolding known exists contains
  known_complete table [] c j h g = cc
  known_complete table (d ∷ cs) c j h g = elim (Bool-cases (eq.beq c d)) [
    | inl q ↦
        rw (known_of_some eq table d cs (ap (λ a. Index.get eq a table) (sym (beq_eq eq q)) ∙ g))
          (ground arith)
    | inr q ↦
        let rest = known_complete table cs c j (rw q at h) g in
        elim (Option-cases (Index.get eq d table)) [
          | inl n ↦ rw (known_of_none eq table d cs n) rest
          | inr (k, n) ↦ rw (known_of_some eq table d cs n, rest) (||-true (j == k))
        ]
  ]

module _ {C F P U T : Type 0} (e : Foreign C F P U) (eq : Eq C) (into : T → Ipld C F)
    (from : Ipld C F → T) where
  -- the reads of a node are what the table knows of what its arguments await
  abbrev AreKnown : List (C × ℕ) → DagNode (Vertex C F U T) → Type 0
  AreKnown table n = n.reads ≡ known eq table (deferreds n.vertex.parsed.args.inner)

  AreKnown-add_task :
      (table : List (C × ℕ)) (s : Aot C F U T) (n : DagNode (Vertex C F U T)) (reads : List ℕ)
      (m : List (C × List (Resource C U)))
      → n.reads ≡ []
      → reads ≡ known eq table (deferreds n.vertex.parsed.args.inner)
      → All (AreKnown table) s.dag × All (AreKnown table) s.unawaits
      → let after = add_task s n reads m in
        All (AreKnown table) after.dag × All (AreKnown table) after.unawaits
  unfolding add_task
  AreKnown-add_task table s n [] m h k (d, u) =
      (d, All-append (AreKnown table) s.unawaits (n ∷ []) u (h ∙ k, tt))
  AreKnown-add_task table s n (r ∷ rs) m h k (d, u) =
      (All-append (AreKnown table) s.dag (record n { reads = r ∷ rs } ∷ []) d (k, tt), u)

  AreKnown-aot_fold :
      (table : List (C × ℕ)) (i : ℕ) (ts : List (Task C F U T)) (s s' : Aot C F U T)
      → aot_fold e eq into from table i ts s ≡ ok s'
      → All (AreKnown table) s.dag × All (AreKnown table) s.unawaits
      → All (AreKnown table) s'.dag × All (AreKnown table) s'.unawaits
  unfolding aot_fold
  AreKnown-aot_fold table i [] s s' h k =
      subst (λ a. All (AreKnown table) a.dag × All (AreKnown table) a.unawaits) (ok-injective h) k
  AreKnown-aot_fold table i (t ∷ ts) s s' h k =
      let (s1, h1, h2) = >>=-eq-ok (aot_step e eq into from table i t s) _ h in
      let a = aot_step-Added e eq into from table i t s h1 in
      AreKnown-aot_fold table (i + 1) ts s1 s' h2 (
        subst (λ a. All (AreKnown table) a.dag × All (AreKnown table) a.unawaits) (sym a.after_is)
          (AreKnown-add_task table s _ _ _ refl refl k))

  AreKnown-place :
      (table : List (C × ℕ)) (awaited : List ℕ) (ns : List (DagNode (Vertex C F U T)))
      → All (AreKnown table) ns
      → All (AreKnown table) (map (place awaited) ns)
  unfolding place
  AreKnown-place table awaited [] k = tt
  AreKnown-place table awaited (n ∷ ns) (k, ks) = (
    elim (Bool-cases (contains n.result awaited)) [ inl q ↦ rw q k | inr q ↦ rw q k ],
    AreKnown-place table awaited ns ks,
  )

  -- a node reads just the results of the tasks that it awaits: each of its reads is the number of a
  -- task whose instruction is awaited, and a task whose instruction is awaited is read
  abbrev pub ReadsAwaited : List (Task C F U T) → DagNode (Vertex C F U T) → Type 0
  ReadsAwaited ts n =
      let awaited = deferreds n.vertex.parsed.args.inner in
      All (λ r. (c : C) × (exists (eq.beq c) awaited ≡ true) × IsTask e eq into from ts c r) n.reads
      × ((c : C) (k : ℕ)
          → exists (eq.beq c) awaited ≡ true
          → IsTask e eq into from ts c k
          → (r : ℕ) × (contains r n.reads ≡ true) × IsTask e eq into from ts c r)

  AreKnown-ReadsAwaited :
      (w : Workflow C F U T) (table : List (C × ℕ))
      → lookup_table e eq into from w ≡ ok table
      → (n : DagNode (Vertex C F U T)) → AreKnown table n
      → ReadsAwaited w.tasks n
  AreKnown-ReadsAwaited w table h n k =
      let cs = deferreds n.vertex.parsed.args.inner in
      let sound = lookup_table_sound e eq into from w table h in
      (
        subst (All _) (sym k) (known_sound eq (IsTask e eq into from w.tasks) table sound cs),
        λ c j m t.
            let (r, g) = lookup_table_complete e eq into from w table h c j t in
            (r, ap (contains r) k ∙ known_complete eq table cs c r m g, sound c r g),
      )

  -- Where `aot` succeeds, the reads of each node of the graph are the numbers of tasks of the
  -- workflow whose instructions' CIDs the arguments of the node await, and each CID that they
  -- await and that is the CID of a task's instruction has a read that is the number of a task
  -- with this CID.
  pub aot-ReadsAwaited :
      (w : Workflow C F U T) (nodes : List (DagNode (Vertex C F U T))) (rs : IndexedResources C U)
      → aot e eq into from w ≡ ok (nodes, rs)
      → All (ReadsAwaited w.tasks) nodes
  unfolding aot
  aot-ReadsAwaited w nodes rs h =
      let (table, h0, h1) = >>=-eq-ok (lookup_table e eq into from w) _ h in
      let (s, h2, h3) = >>=-eq-ok (aot_fold e eq into from table 0 w.tasks empty) _ h1 in
      let (d, u) = AreKnown-aot_fold table 0 w.tasks empty s h2 (tt, tt) in
      All-imp _ _ nodes (AreKnown-ReadsAwaited w table h0) (
        subst (All (AreKnown table)) (ap (λ p. p.0) (ok-injective h3))
          (All-append (AreKnown table) s.dag _ d (AreKnown-place table s.awaited s.unawaits u)))
