-- ===== src/Runtime/Graph/Numbers.antt =====
-- The numbers and the names of a graph's nodes.
use mathlib.Core.Option
use mathlib.Core.List.Perm
use mathlib.Core.Path.{subst}
use mathlib.Core.Logic.{inl, inr}
use mathlib.Core.List.{
  Perm, perm_middle, perm_append_singleton, append_assoc, append-nil, map-append,
}
use homestar.Prelude.{
  ℕ, ◌+◌, ◌≡◌, refl, sym, ap, ◌∙◌, String, Option, some, List, [], ◌∷◌, ◌++◌, map, Bool-cases,
}
use homestar.Prelude.Classes.{Eq}
use homestar.Result.{ok, to_option, >>=-eq-ok, ok-injective}
use homestar.Ipld.{Ipld}
use homestar.Foreign.{Foreign}
use homestar.Core.Task.{Task, Workflow, instruction_cid}
use homestar.Runtime.Resources.{IndexedResources, Resource}
use homestar.Runtime.Graph.{
  Vertex, DagNode, Aot, empty, add_task, place, contains, aot_step, aot_fold, aot, lookup_table,
}
use homestar.Runtime.Graph.Step.{aot_step-Added}

-- a node's number and name
abbrev pub label : {V : Type 0} → DagNode V → ℕ × Option String
label n = (n.result, some n.name)

abbrev pub labels : {V : Type 0} → List (DagNode V) → List (ℕ × Option String)
labels ns = map label ns

label-place : {V : Type 0} (awaited : List ℕ) (n : DagNode V) → label (place awaited n) ≡ label n
unfolding place
label-place awaited n = elim (Bool-cases (contains n.result awaited)) [
  | inl e ↦ rw e
  | inr e ↦ rw e
]

labels-place :
    {V : Type 0} (awaited : List ℕ) (ns : List (DagNode V))
    → labels (map (place awaited) ns) ≡ labels ns
labels-place awaited [] = refl
labels-place awaited (n ∷ ns) = rw (label-place awaited n, labels-place awaited ns)

-- the labels of a fold's accumulator
abbrev all_labels : {C F U T : Type 0} → Aot C F U T → List (ℕ × Option String)
all_labels s = labels s.dag ++ labels s.unawaits

one_more :
    {A : Type 0} (xs ys : List A) (a : A) → Perm ((xs ++ a ∷ []) ++ ys) ((xs ++ ys) ++ a ∷ [])
one_more xs ys a =
    subst (λ l. Perm l ((xs ++ ys) ++ a ∷ [])) (sym (append_assoc xs (a ∷ []) ys))
      (Perm.trans (perm_middle xs ys) (Perm.symm (perm_append_singleton a (xs ++ ys))))

all_labels-add_task :
    {C F U T : Type 0} (s : Aot C F U T) (n : DagNode (Vertex C F U T)) (reads : List ℕ)
    (m : List (C × List (Resource C U)))
    → Perm (all_labels (add_task s n reads m)) (all_labels s ++ label n ∷ [])
unfolding add_task
all_labels-add_task s n [] m =
    subst (λ l. Perm l (all_labels s ++ label n ∷ []))
      (append_assoc (labels s.dag) (labels s.unawaits) (label n ∷ [])
        ∙ sym (ap (λ l. labels s.dag ++ l) (map-append label s.unawaits (n ∷ []))))
      (Perm.refl (all_labels s ++ label n ∷ []))
all_labels-add_task s n (r ∷ rs) m =
    subst (λ l. Perm (l ++ labels s.unawaits) (all_labels s ++ label n ∷ []))
      (sym (map-append label s.dag (record n { reads = r ∷ rs } ∷ [])))
      (one_more (labels s.dag) (labels s.unawaits) (label n))

module _ {C F P U T : Type 0} (e : Foreign C F P U) (eq : Eq C) (into : T → Ipld C F)
    (from : Ipld C F → T) where
  -- the CID of a task's instruction, as text
  abbrev pub name_of : Task C F U T → Option String
  name_of t = Option.map e.cid_to_string (to_option (instruction_cid e into t))

  -- the tasks' numbers, from `i` on, with the texts of their instructions' CIDs
  abbrev pub numbered : ℕ → List (Task C F U T) → List (ℕ × Option String)
  numbered i [] = []
  numbered i (t ∷ ts) = (i, name_of t) ∷ numbered (i + 1) ts

  all_labels-aot_step :
      (table : List (C × ℕ)) (i : ℕ) (t : Task C F U T) (s s' : Aot C F U T)
      → aot_step e eq into from table i t s ≡ ok s'
      → Perm (all_labels s') (all_labels s ++ (i, name_of t) ∷ [])
  all_labels-aot_step table i t s s' h =
      let a = aot_step-Added e eq into from table i t s h in
      subst (λ l. Perm (all_labels s') (all_labels s ++ (i, l) ∷ []))
        (ap (λ r. Option.map e.cid_to_string (to_option r)) (sym a.cid_is))
        (subst
          (λ l. Perm (all_labels l) (all_labels s ++ (i, some (e.cid_to_string a.instr_cid)) ∷ []))
          (sym a.after_is) (all_labels-add_task s _ _ _))

  all_labels-aot_fold :
      (table : List (C × ℕ)) (i : ℕ) (ts : List (Task C F U T)) (s s' : Aot C F U T)
      → aot_fold e eq into from table i ts s ≡ ok s'
      → Perm (all_labels s') (all_labels s ++ numbered i ts)
  unfolding aot_fold
  all_labels-aot_fold table i [] s s' h =
      subst (λ l. Perm (all_labels l) (all_labels s ++ [])) (ok-injective h)
        (Perm.symm
          (subst (λ l. Perm l (all_labels s)) (sym (append-nil (all_labels s))) (Perm.refl _)))
  all_labels-aot_fold table i (t ∷ ts) s s' h =
      let (s1, h1, h2) = >>=-eq-ok (aot_step e eq into from table i t s) _ h in
      Perm.trans (all_labels-aot_fold table (i + 1) ts s1 s' h2) (
        subst (λ l. Perm (all_labels s1 ++ numbered (i + 1) ts) l)
          (append_assoc (all_labels s) ((i, name_of t) ∷ []) (numbered (i + 1) ts))
          (Perm.append_right (numbered (i + 1) ts) (all_labels-aot_step table i t s s1 h1)))

  -- Where `aot` succeeds, the graph has one node for each task of the workflow: the nodes'
  -- numbers and names are, in some order, the positions of the tasks with the texts of the CIDs
  -- of their instructions.
  pub labels-aot :
      (w : Workflow C F U T) (nodes : List (DagNode (Vertex C F U T))) (rs : IndexedResources C U)
      → aot e eq into from w ≡ ok (nodes, rs)
      → Perm (labels nodes) (numbered 0 w.tasks)
  unfolding aot
  labels-aot w nodes rs h =
      let (table, h0, h1) = >>=-eq-ok (lookup_table e eq into from w) _ h in
      let (s, h2, h3) = >>=-eq-ok (aot_fold e eq into from table 0 w.tasks empty) _ h1 in
      subst (λ l. Perm (labels l) (numbered 0 w.tasks)) (ap (λ p. p.0) (ok-injective h3))
        (subst (λ l. Perm l (numbered 0 w.tasks))
          (sym (
            map-append label s.dag (map (place s.awaited) s.unawaits)
            ∙ ap (λ l. labels s.dag ++ l) (labels-place s.awaited s.unawaits)))
          (all_labels-aot_fold table 0 w.tasks empty s h2))
