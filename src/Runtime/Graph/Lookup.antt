-- ===== src/Runtime/Graph/Lookup.antt =====
-- The lookup table: the tasks' numbers, by the CIDs of their instructions.
use homestar.Prelude.{
  ℕ, zero, suc, ◌+◌, ◌≡◌, refl, sym, ap, ◌∙◌, some, List, [], ◌∷◌, inl, inr, Bool-cases, arith,
}
use mathlib.Core.Path.{subst}
use mathlib.Core.Option.{some_inj}
use homestar.Prelude.Lists.{get_elem?}
use homestar.Prelude.Classes.{Eq}
use homestar.Result.{ok, map_err, >>=-eq-ok, map_err-eq-ok, ok-injective}
use homestar.Ipld.{Ipld}
use homestar.Foreign.{Foreign}
use homestar.Core.Task.{Task, Workflow, instruction_cid}
use homestar.Runtime.Receipt.{any}
use homestar.Runtime.Resources as Index
use homestar.Runtime.Resources.{IndexedResources, Resource}
use homestar.Runtime.Resources.Table.{
  Present, Present-insert, get-insert_self, get-insert_ne, beq_eq,
}
use homestar.Runtime.Graph.{lookup_from, lookup_table}

module _ {C F P U T : Type 0} (e : Foreign C F P U) (eq : Eq C) (into : T → Ipld C F)
    (from : Ipld C F → T) where
  -- the task with the number `j` has the instruction with the CID `c`
  abbrev pub IsTask : List (Task C F U T) → C → ℕ → Type 0
  IsTask ts c j = (t : Task C F U T) × (get_elem? ts j ≡ some t) × (instruction_cid e into t ≡ ok c)

  -- Whatever the table holds, the tasks that it is extended by are entered as they are numbered.
  lookup_from_sound :
      (Right : C → ℕ → Type 0) (i : ℕ) (ts : List (Task C F U T)) (table table' : List (C × ℕ))
      → lookup_from e eq into from i ts table ≡ ok table'
      → ((c : C) (j : ℕ) → Index.get eq c table ≡ some j → Right c j)
      → ((c : C) (k : ℕ) → IsTask ts c k → Right c (i + k))
      → (c : C) (j : ℕ) → Index.get eq c table' ≡ some j
      → Right c j
  unfolding lookup_from
  lookup_from_sound Right i [] table table' h old new c j g =
      old c j (ap (Index.get eq c) (ok-injective h) ∙ g)
  lookup_from_sound Right i (t ∷ ts) table table' h old new c j g =
      let (d, hd, h1) = >>=-eq-ok (map_err any (instruction_cid e into t)) _ h in
      let d_is = map_err-eq-ok any (instruction_cid e into t) hd in
      lookup_from_sound Right (i + 1) ts (Index.insert eq d i table) table' h1
        (λ k n f. elim (Bool-cases (eq.beq k d)) [
          | inl q ↦
              let first = subst (Right d) (omega arith) (new d 0 (t, refl, d_is)) in
              subst (λ a. Right a n) (sym (beq_eq eq q))
                (subst (Right d)
                  (some_inj.0 (
                    sym (get-insert_self eq d i table)
                    ∙ ap (λ a. Index.get eq a (Index.insert eq d i table)) (sym (beq_eq eq q))
                    ∙ f))
                  first)
          | inr q ↦ old k n (sym (get-insert_ne eq k d i table q) ∙ f)
        ])
        (λ k n u. subst (Right k) (omega arith) (new k (suc n) u)) c j g

  -- Every CID of the table stays in it, and every task's is entered.
  lookup_from_kept :
      (i : ℕ) (ts : List (Task C F U T)) (table table' : List (C × ℕ))
      → lookup_from e eq into from i ts table ≡ ok table'
      → (c : C) → Present eq c table
      → Present eq c table'
  unfolding lookup_from
  lookup_from_kept i [] table table' h c g = subst (Present eq c) (ok-injective h) g
  lookup_from_kept i (t ∷ ts) table table' h c g =
      let (d, hd, h1) = >>=-eq-ok (map_err any (instruction_cid e into t)) _ h in
      lookup_from_kept (i + 1) ts (Index.insert eq d i table) table' h1 c
        (Present-insert eq c d i table g)

  lookup_from_complete :
      (i : ℕ) (ts : List (Task C F U T)) (table table' : List (C × ℕ))
      → lookup_from e eq into from i ts table ≡ ok table'
      → (c : C) (k : ℕ) → IsTask ts c k
      → Present eq c table'
  unfolding lookup_from
  lookup_from_complete i [] table table' h c k (t, f, q) = cc
  lookup_from_complete i (t ∷ ts) table table' h c zero (u, f, q) =
      let (d, hd, h1) = >>=-eq-ok (map_err any (instruction_cid e into t)) _ h in
      lookup_from_kept (i + 1) ts (Index.insert eq d i table) table' h1 c (
        i,
        ap (λ a. Index.get eq a (Index.insert eq d i table))
              (ok-injective (
                sym q
                ∙ ap (instruction_cid e into) (sym (some_inj.0 f))
                ∙ map_err-eq-ok any (instruction_cid e into t) hd))
            ∙ get-insert_self eq d i table,
      )
  lookup_from_complete i (t ∷ ts) table table' h c (suc k) u =
      let (d, hd, h1) = >>=-eq-ok (map_err any (instruction_cid e into t)) _ h in
      lookup_from_complete (i + 1) ts (Index.insert eq d i table) table' h1 c k u

  pub lookup_table_sound :
      (w : Workflow C F U T) (table : List (C × ℕ))
      → lookup_table e eq into from w ≡ ok table
      → (c : C) (j : ℕ) → Index.get eq c table ≡ some j
      → IsTask w.tasks c j
  unfolding lookup_table Index.get
  lookup_table_sound w table h =
      lookup_from_sound (IsTask w.tasks) 0 w.tasks [] table h (λ c j g. cc)
        (λ c k u. subst (IsTask w.tasks c) (omega arith) u)

  pub lookup_table_complete :
      (w : Workflow C F U T) (table : List (C × ℕ))
      → lookup_table e eq into from w ≡ ok table
      → (c : C) (k : ℕ) → IsTask w.tasks c k
      → Present eq c table
  unfolding lookup_table
  lookup_table_complete w table h = lookup_from_complete 0 w.tasks [] table h
