-- ===== src/Runtime/Info/Counts.antt =====
-- How the progress of a workflow is counted.
use homestar.Prelude.{
  ◌+◌, ◌<◌, ◌^◌, ◌≡◌, refl, ap, List, [], ◌∷◌, ◌++◌, length, length-append, arith,
}
use homestar.Runtime.Info.{Info, increment_progress, increment_all}

append_assoc :
    {A : Type 0} (xs : List A) (x : A) (ys : List A) → (xs ++ x ∷ []) ++ ys ≡ xs ++ x ∷ ys
append_assoc [] x ys = refl
append_assoc (y ∷ xs) x ys = ap (λ t. y ∷ t) (append_assoc xs x ys)

module _ {C U : Type 0} where
  -- After one or more calls of `increment_progress`, the progress is the old one followed by
  -- the receipts given, in their order, and where it is shorter than 2^32 - 1, the count is one
  -- more than its length.
  pub increment_all-counts :
      (i : Info C U) (c : C) (cs : List C)
      → length i.progress + length (c ∷ cs) + 1 < 2 ^ 32
      → let after = increment_all i (c ∷ cs) in
        (after.progress ≡ i.progress ++ c ∷ cs) × (after.progress_count ≡ length after.progress + 1)
  unfolding increment_all increment_progress
  increment_all-counts i c [] h = (refl, ground (arith, length-append i.progress (c ∷ [])))
  increment_all-counts i c (d ∷ cs) h =
      let (a, b) =
        increment_all-counts (increment_progress i c) d cs
          (ground (arith, length-append i.progress (c ∷ []))) in
      (rw append_assoc at a, b)
