-- ===== src/Runtime/Resources/Table.antt =====
-- What a lookup in an `IndexMap` finds after an insertion.
use homestar.Prelude.{
  ◌≡◌, refl, sym, ap, ◌∙◌, true, false, none, some, List, [], ◌∷◌, inl, inr, Bool-cases,
  Option-cases,
}
use homestar.Prelude.Classes.{Eq}
use homestar.Runtime.Resources.{get, insert, insert_new}

module _ {C : Type 0} (eq : Eq C) where
  pub beq_self : (c : C) → eq.beq c c ≡ true
  beq_self c = (eq.beq_iff c c).1 refl

  pub beq_eq : {a b : C} → eq.beq a b ≡ true → a ≡ b
  beq_eq {a} {b} h = (eq.beq_iff a b).0 h

  -- equal keys compare the same
  pub beq_of_beq : {k j l : C} → eq.beq j l ≡ true → eq.beq k j ≡ false → eq.beq k l ≡ false
  beq_of_beq {k} {j} {l} h g = ap (eq.beq k) (sym (beq_eq h)) ∙ g

module _ {C V : Type 0} (eq : Eq C) where
  pub get-insert_self : (k : C) (v : V) (m : List (C × V)) → get eq k (insert eq k v m) ≡ some v
  unfolding get insert
  get-insert_self k v [] = rw (beq_self eq k)
  get-insert_self k v ((j, w) ∷ m) = elim (Bool-cases (eq.beq k j)) [
    | inl e ↦ rw (e, e)
    | inr e ↦ rw (e, e) (get-insert_self k v m)
  ]

  pub get-insert_ne :
      (k j : C) (v : V) (m : List (C × V))
      → eq.beq k j ≡ false
      → get eq k (insert eq j v m) ≡ get eq k m
  unfolding get insert
  get-insert_ne k j v [] h = rw h
  get-insert_ne k j v ((l, w) ∷ m) h = elim (Bool-cases (eq.beq j l)) [
    | inl e ↦ rw (e, beq_of_beq eq e h)
    | inr e ↦ elim (Bool-cases (eq.beq k l)) [
      | inl q ↦ rw (e, q) refl
      | inr q ↦ rw (e, q) (get-insert_ne k j v m h)
    ]
  ]

  -- A key that is in the map, and its value.
  abbrev pub Present : C → List (C × V) → Type 0
  Present c m = (v : V) × (get eq c m ≡ some v)

  pub Present-insert :
      (k j : C) (v : V) (m : List (C × V)) → Present k m → Present k (insert eq j v m)
  Present-insert k j v m (w, h) = elim (Bool-cases (eq.beq k j)) [
    | inl e ↦ (v, ap (λ c. get eq c (insert eq j v m)) (beq_eq eq e) ∙ get-insert_self j v m)
    | inr e ↦ (w, get-insert_ne k j v m e ∙ h)
  ]

  -- `entry(j).or_insert_with(..)` keeps what is there,
  pub get-insert_new_kept :
      (k j : C) (v : V) (m : List (C × V)) {w : V}
      → get eq k m ≡ some w
      → get eq k (insert_new eq j v m) ≡ some w
  unfolding get insert_new
  get-insert_new_kept k j v [] h = cc
  get-insert_new_kept k j v ((l, w) ∷ m) h = elim (Bool-cases (eq.beq j l)) [
    | inl e ↦ rw e h
    | inr e ↦ elim (Bool-cases (eq.beq k l)) [
      | inl q ↦ rw (e, q) (rw q at h)
      | inr q ↦ rw (e, q) (get-insert_new_kept k j v m (rw q at h))
    ]
  ]

  -- and inserts the value at a key that is new.
  pub get-insert_new_self :
      (k : C) (v : V) (m : List (C × V))
      → get eq k m ≡ none
      → get eq k (insert_new eq k v m) ≡ some v
  unfolding get insert_new
  get-insert_new_self k v [] h = rw (beq_self eq k)
  get-insert_new_self k v ((l, w) ∷ m) h = elim (Bool-cases (eq.beq k l)) [
    | inl e ↦ cc (rw e at h)
    | inr e ↦ rw (e, e) (get-insert_new_self k v m (rw e at h))
  ]

  pub Present-insert_new :
      (k j : C) (v : V) (m : List (C × V)) → Present k m → Present k (insert_new eq j v m)
  Present-insert_new k j v m (w, h) = (w, get-insert_new_kept k j v m h)

  pub Present-insert_new_self : (k : C) (v : V) (m : List (C × V)) → Present k (insert_new eq k v m)
  Present-insert_new_self k v m = elim (Option-cases (get eq k m)) [
    | inl e ↦ (v, get-insert_new_self k v m e)
    | inr (w, e) ↦ (w, get-insert_new_kept k k v m e)
  ]
