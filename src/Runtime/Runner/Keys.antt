-- ===== src/Runtime/Runner/Keys.antt =====
-- The keys of an `IndexMap` or `DashMap`: unique through its operations, and what holds of its entries.
use mathlib.Core.Path.{subst}
use homestar.Prelude.{
  ◌≡◌, refl, ap, Bool, false, Option, none, some, List, [], ◌∷◌, inl, inr, Bool-cases, arith,
}
use homestar.Prelude.Classes.{Eq}
use homestar.Prelude.Vec.{All}
use homestar.Prelude.Table.{select, exists, Unique}
use homestar.Runtime.Resources as Index
use homestar.Runtime.Resources.Table.{beq_self, beq_eq}
use homestar.Runtime.Handler.Calls.{remove}

module _ {C : Type 0} (eq : Eq C) where
  pub beq_swap : {j k : C} → eq.beq k j ≡ false → eq.beq j k ≡ false
  beq_swap {j} {k} h = elim (Bool-cases (eq.beq j k)) [
    | inl e ↦ cc (h, ap (eq.beq k) (beq_eq eq e), beq_self eq k)
    | inr e ↦ e
  ]

module _ {C V : Type 0} (eq : Eq C) where
  abbrev pub same_key_of : C × V → C × V → Bool
  same_key_of a b = eq.beq a.0 b.0

  abbrev pub has : C → List (C × V) → Bool
  has c m = exists (λ w. eq.beq c w.0) m

  abbrev pub UniqueKeys : List (C × V) → Type 0
  UniqueKeys m = Unique same_key_of m

  -- what holds of a map's entries, through its operations
  pub All-insert :
      (P : C × V → Type 0) (k : C) (v : V) (m : List (C × V))
      → P (k, v)
      → All P m
      → All P (Index.insert eq k v m)
  unfolding Index.insert
  All-insert P k v [] p ps = (p, tt)
  All-insert P k v ((j, w) ∷ m) p (q, ps) = elim (Bool-cases (eq.beq k j)) [
    | inl e ↦ rw e (subst (λ i. P (i, v)) (beq_eq eq e) p, ps)
    | inr e ↦ rw e (q, All-insert P k v m p ps)
  ]

  pub has-insert :
      (j k : C) (v : V) (m : List (C × V))
      → eq.beq j k ≡ false
      → has j m ≡ false
      → has j (Index.insert eq k v m) ≡ false
  unfolding Index.insert exists
  has-insert j k v [] h a = rw h refl
  has-insert j k v ((l, w) ∷ m) h a = elim (Bool-cases (eq.beq k l)) [
    | inl e ↦ rw e a
    | inr e ↦ rw e (ground (arith, has-insert j k v m h))
  ]

  pub Unique-insert :
      (k : C) (v : V) (m : List (C × V)) → UniqueKeys m → UniqueKeys (Index.insert eq k v m)
  unfolding Index.insert exists
  Unique-insert k v [] u = (refl, tt)
  Unique-insert k v ((j, w) ∷ m) (a, u) = elim (Bool-cases (eq.beq k j)) [
    | inl e ↦ rw e (a, u)
    | inr e ↦ rw e (has-insert j k v m (beq_swap eq e) a, Unique-insert k v m u)
  ]

  pub All-remove :
      (P : C × V → Type 0) (k : C) (m : List (C × V))
      → All P m
      → All (λ w. P w × (eq.beq k w.0 ≡ false)) (remove eq k m)
  unfolding remove
  All-remove P k [] ps = tt
  All-remove P k ((j, w) ∷ m) (p, ps) = elim (Bool-cases (eq.beq k j)) [
    | inl e ↦ rw e (All-remove P k m ps)
    | inr e ↦ rw e ((p, e), All-remove P k m ps)
  ]

  pub has-remove : (j k : C) (m : List (C × V)) → has j m ≡ false → has j (remove eq k m) ≡ false
  unfolding remove exists
  has-remove j k [] a = refl
  has-remove j k ((l, w) ∷ m) a = elim (Bool-cases (eq.beq k l)) [
    | inl e ↦ rw e (ground (arith, has-remove j k m))
    | inr e ↦ rw e (ground (arith, has-remove j k m))
  ]

  pub Unique-remove : (k : C) (m : List (C × V)) → UniqueKeys m → UniqueKeys (remove eq k m)
  unfolding remove
  Unique-remove k [] u = tt
  Unique-remove k ((j, w) ∷ m) (a, u) = elim (Bool-cases (eq.beq k j)) [
    | inl e ↦ rw e (Unique-remove k m u)
    | inr e ↦ rw e (has-remove j k m a, Unique-remove k m u)
  ]

  pub has-select :
      (p : C × V → Bool) (j : C) (m : List (C × V)) → has j m ≡ false → has j (select p m) ≡ false
  unfolding select exists
  has-select p j [] a = refl
  has-select p j (w ∷ m) a = elim (Bool-cases (p w)) [
    | inl e ↦ rw e (ground (arith, has-select p j m))
    | inr e ↦ rw e (ground (arith, has-select p j m))
  ]

  pub Unique-select : (p : C × V → Bool) (m : List (C × V)) → UniqueKeys m → UniqueKeys (select p m)
  unfolding select
  Unique-select p [] u = tt
  Unique-select p (w ∷ m) (a, u) = elim (Bool-cases (p w)) [
    | inl e ↦ rw e (has-select p w.0 m a, Unique-select p m u)
    | inr e ↦ rw e (Unique-select p m u)
  ]

  -- A key that finds nothing has no entry, and what a key finds is an entry.
  pub has_of_none : (k : C) (m : List (C × V)) → Index.get eq k m ≡ none → has k m ≡ false
  unfolding Index.get exists
  has_of_none k [] h = refl
  has_of_none k ((j, w) ∷ m) h = elim (Bool-cases (eq.beq k j)) [
    | inl e ↦ cc (rw e at h)
    | inr e ↦ rw e (has_of_none k m (rw e at h))
  ]

  entry_eq :
      {k j : C} {w v : V}
      → k ≡ j
      → ◌≡◌ {A = Option V} (some w) (some v)
      → ◌≡◌ {A = C × V} (j, w) (k, v)
  entry_eq p q = cc

  pub All-get :
      (P : C × V → Type 0) (k : C) (m : List (C × V)) {v : V}
      → All P m
      → Index.get eq k m ≡ some v
      → P (k, v)
  unfolding Index.get
  All-get P k [] ps h = cc
  All-get P k ((j, w) ∷ m) {v} (p, ps) h = elim (Bool-cases (eq.beq k j)) [
    | inl e ↦ subst P (entry_eq (beq_eq eq e) (rw e at h)) p
    | inr e ↦ All-get P k m ps (rw e at h)
  ]

  pub All_of_absent :
      (P : C × V → Type 0) (k : C) (m : List (C × V))
      → has k m ≡ false
      → All P m
      → All (λ w. P w × (eq.beq k w.0 ≡ false)) m
  unfolding exists
  All_of_absent P k [] a ps = tt
  All_of_absent P k (w ∷ m) a (p, ps) = elim (Bool-cases (eq.beq k w.0)) [
    | inl e ↦ cc (rw e at a)
    | inr e ↦ ((p, e), All_of_absent P k m (rw e at a) ps)
  ]
