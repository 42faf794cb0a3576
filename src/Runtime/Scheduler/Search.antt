-- ===== src/Runtime/Scheduler/Search.antt =====
-- What the search for the last batch that has run finds.
use homestar.Prelude.{
  ℕ, ◌+◌, ◌≡◌, refl, ap, sym, ◌∙◌, String, Bool, true, false, Option, none, some, List, [], ◌∷◌,
  ◌++◌, length, ◌==◌, inl, inr, Option-cases, Bool-cases,
}
use mathlib.Core.List.{append-nil, append_assoc}
use homestar.Prelude.Vec.{All}
use homestar.Prelude.Classes.{Eq}
use homestar.Core.Pointer.{Pointer, new}
use homestar.Runtime.Resources.{Resource, IndexedResources}
use homestar.Runtime.Scheduler.{
  node_entry, Batch, Found, LinkMap, batch_pointers, found_step, pointers_step, batch_step,
  resume_next, resume_loop,
}

abbrev append_opt : {A : Type 0} → List A → Option (List A) → Option (List A)
append_opt ptrs none = none
append_opt ptrs (some qs) = some (ptrs ++ qs)

append_opt-append :
    {A : Type 0} (ps : List A) (p : A) (o : Option (List A))
    → append_opt (ps ++ p ∷ []) o ≡ append_opt ps (append_opt (p ∷ []) o)
append_opt-append ps p none = refl
append_opt-append ps p (some qs) = ap some (append_assoc ps (p ∷ []) qs)

append_opt-nil : {A : Type 0} (o : Option (List A)) → append_opt [] o ≡ o
append_opt-nil none = refl
append_opt-nil (some qs) = refl

abbrev is_some : {A : Type 0} → Option A → Bool
is_some none = false
is_some (some a) = true

module _ {C U V : Type 0} (eq : Eq C) (from_str : String → Option C)
    (rs : IndexedResources C U) where
  -- The instructions of a batch, if each node's name is the CID of an instruction with resources.
  unfoldable pub instructions : Batch V → Option (List (Pointer C))
  instructions [] = some []
  instructions (n ∷ ns) = elim (node_entry eq from_str rs n) [
    | none ↦ none
    | some (c, _) ↦ append_opt (new c ∷ []) (instructions ns)
  ]

module _ {C U V A : Type 0} (eq : Eq C) (from_str : String → Option C)
    (find : List (Pointer C) → Option (List (Found C A))) (rs : IndexedResources C U) where
  has_run_found : Batch V → Option (List (Found C A)) → Bool
  has_run_found batch none = false
  has_run_found batch (some found) = length found == length batch

  has_run_of : Batch V → Option (List (Pointer C)) → Bool
  unfolding has_run_found
  has_run_of batch none = false
  has_run_of batch (some ptrs) = has_run_found batch (find ptrs)

  -- The database finds as many receipts for the batch's instructions as it has nodes.
  pub has_run : Batch V → Bool
  unfolding has_run_of instructions
  has_run batch = has_run_of batch (instructions eq from_str rs batch)

  pointers_lem :
      (b : Batch V) (ptrs : List (Pointer C)) (left : List (C × Resource C U))
      → (batch_pointers eq from_str find rs b ptrs left).0
        ≡ append_opt ptrs (instructions eq from_str rs b)
  unfolding batch_pointers instructions
  pointers_lem [] ptrs left = ap some (sym (append-nil ptrs))
  pointers_lem (n ∷ ns) ptrs left = elim (Option-cases (node_entry eq from_str rs n)) [
    | inl e ↦ rw (e, batch_pointers, instructions)
    | inr ((c, rscs), e) ↦
        rw (e, batch_pointers, instructions)
          (pointers_lem ns _ _ ∙ append_opt-append ptrs (new c) (instructions eq from_str rs ns))
  ]

  found_lem :
      (b : Batch V) (left : List (C × Resource C U)) (o : Option (List (Found C A)))
      → is_some (found_step eq from_str find b left o).0 ≡ has_run_found b o
  unfolding found_step has_run_found
  found_lem b left none = refl
  found_lem b left (some found) = elim (Bool-cases (length found == length b)) [
    | inl e ↦ rw e
    | inr e ↦ rw e
  ]

  step_lem :
      (b : Batch V) (r : Option (List (Pointer C)) × List (C × Resource C U))
      → is_some (pointers_step eq from_str find b r).0 ≡ has_run_of b r.0
  unfolding pointers_step has_run_of
  step_lem b (none, left) = refl
  step_lem b (some ptrs, left) = found_lem b left (find ptrs)

  batch_step_lem :
      (b : Batch V) (left : List (C × Resource C U))
      → is_some (batch_step eq from_str find rs b left).0 ≡ has_run b
  unfolding batch_step has_run
  batch_step_lem b left =
      step_lem b (batch_pointers eq from_str find rs b [] left)
      ∙ ap (has_run_of b) (pointers_lem b [] left ∙ append_opt-nil (instructions eq from_str rs b))

  -- What the search over the reversed schedule finds.
  abbrev pub Outcome : List (Batch V) → Option (ℕ × LinkMap C A) → Type 0
  Outcome reversed none = All (λ b. has_run b ≡ false) reversed
  Outcome reversed (some (idx, _)) =
      (after : List (Batch V)) × (batch : Batch V) × (before : List (Batch V)) × (reversed
        ≡ after ++ batch ∷ before)
      × (idx ≡ length before + 1)
      × (has_run batch ≡ true)
      × All (λ b. has_run b ≡ false) after

  later-Outcome :
      (b : Batch V) (before : List (Batch V)) (o : Option (ℕ × LinkMap C A))
      → has_run b ≡ false
      → Outcome before o
      → Outcome (b ∷ before) o
  later-Outcome b before none e h = (e, h)
  later-Outcome b before (some (idx, lm)) e (after, batch, first, q, i, run, rest) =
      (b ∷ after, batch, first, ap (λ l. b ∷ l) q, i, run, (e, rest))

  next-Outcome :
      (b : Batch V) (before : List (Batch V)) (r : Option (LinkMap C A) × List (C × Resource C U))
      → is_some r.0 ≡ has_run b
      → ((left : List (C × Resource C U))
          → Outcome before (resume_loop eq from_str find rs before left).0)
      → Outcome
          (b ∷ before)
          (resume_next (length before) (λ left. resume_loop eq from_str find rs before left) r).0
  unfolding resume_next
  next-Outcome b before (some lm, left) e ih = ([], b, before, refl, refl, sym e, tt)
  next-Outcome b before (none, left) e ih = later-Outcome b before _ (sym e) (ih left)

  pub loop-Outcome :
      (reversed : List (Batch V)) (left : List (C × Resource C U))
      → Outcome reversed (resume_loop eq from_str find rs reversed left).0
  unfolding resume_loop
  loop-Outcome [] left = tt
  loop-Outcome (b ∷ before) left =
      next-Outcome b before (batch_step eq from_str find rs b left) (batch_step_lem b left)
        (λ l. loop-Outcome before l)
