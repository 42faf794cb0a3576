-- ===== src/Prelude/Table.antt =====
-- Lists as tables: queries by a test, and keys that are unique.
use mathlib.Core.Path.{◌≡◌, refl}
use mathlib.Core.Bool.{Bool, true, false, ◌||◌}
use mathlib.Core.Option.{Option, none, some}
use mathlib.Core.List.{List, [], ◌∷◌, ◌++◌}
use native.Mathlib.Omega.{arith}
use mathlib.Core.Logic.{inl, inr}
use homestar.Prelude.Tests.{Bool-cases, if◌then◌else◌}

module _ {ℓ} {A : Type ℓ} where
  -- `SELECT .. WHERE p`
  unfoldable pub select : (A → Bool) → List A → List A
  select p [] = []
  select p (x ∷ xs) = if p x then x ∷ select p xs else select p xs

  -- the first row of a query
  unfoldable pub first : (A → Bool) → List A → Option A
  first p [] = none
  first p (x ∷ xs) = if p x then some x else first p xs

  unfoldable pub exists : (A → Bool) → List A → Bool
  exists p [] = false
  exists p (x ∷ xs) = p x || exists p xs

  pub exists-append :
      (p : A → Bool) (xs ys : List A) → exists p (xs ++ ys) ≡ (exists p xs || exists p ys)
  unfolding exists
  exists-append p [] ys = refl
  exists-append p (x ∷ xs) ys = ground (arith, exists-append p xs ys)

  -- A query finds a row just where one exists, and what it finds satisfies the test.
  pub first_of_exists :
      (p : A → Bool) (xs : List A)
      → exists p xs ≡ true
      → (x : A) × (first p xs ≡ some x) × (p x ≡ true)
  unfolding exists first
  first_of_exists p [] h = cc
  first_of_exists p (x ∷ xs) h = elim (Bool-cases (p x)) [
    | inl e ↦ (x, rw e, e)
    | inr e ↦ let (y, f, q) = first_of_exists p xs (rw e at h) in (y, rw e f, q)
  ]

  -- No row of the table has the key of one further down.
  abbrev pub Unique : (A → A → Bool) → List A → Type 0
  Unique same [] = Unit
  Unique same (x ∷ xs) = (exists (same x) xs ≡ false) × Unique same xs

  pub Unique-append :
      (same : A → A → Bool) (xs : List A) (x : A)
      → Unique same xs
      → exists (λ y. same y x) xs ≡ false
      → Unique same (xs ++ x ∷ [])
  unfolding exists
  Unique-append same [] x u h = (refl, tt)
  Unique-append same (y ∷ ys) x (n, u) h =
      (ground (arith, exists-append (same y) ys (x ∷ [])), Unique-append same ys x u (ground arith))
