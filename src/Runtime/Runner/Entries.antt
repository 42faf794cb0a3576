-- ===== src/Runtime/Runner/Entries.antt =====
-- The entries of the expiration queue for the workers that run.
use homestar.Prelude.{
  ℕ, ◌≡◌, ap, ◌∙◌, Bool, false, some, List, [], ◌∷◌, not, inl, inr, Bool-cases, arith,
}
use homestar.Prelude.Classes.{Eq}
use homestar.Prelude.Vec.{All}
use homestar.Prelude.Table.{select, exists}
use homestar.Runtime.Resources.Table.{beq_self, beq_eq}
use homestar.Runtime.Handler.{Net}
use homestar.Runtime.Runner.{DelayQueue, IsDelayQueue, Runner, forget_finished}
use homestar.Runtime.Runner.Keys.{has, UniqueKeys, beq_swap, All_of_absent}

module _ {C Q K J : Type 0} (dq : DelayQueue C Q K) where
  abbrev pub Timed : Q → List (C × (J × K)) → Type 0
  Timed q m = All (λ w. dq.value w.1.1 q ≡ some w.0) m

module _ {C U Q K J T : Type 0} {net : Net} (dq : DelayQueue C Q K) (eq : Eq C) where
  -- Each worker has an entry for its own CID in the queue, under its own key, and no two workers
  -- have one CID.
  abbrev pub IsTimed : Runner C U Q K J T net → Type 0
  IsTimed s = Timed dq s.expiration_queue s.running_workers × UniqueKeys eq s.running_workers

module _ {C Q K : Type 0} (dq : DelayQueue C Q K) (eq_key : Eq K) (eq : Eq C) where
  -- Entries for two CIDs have two keys.
  pub apart :
      {c d : C} (q : Q) (i j : K)
      → dq.value i q ≡ some c
      → dq.value j q ≡ some d
      → eq.beq d c ≡ false
      → eq_key.beq i j ≡ false
  apart {c} {d} q i j f g ne = elim (Bool-cases (eq_key.beq i j)) [
    | inl e ↦ cc (f, g, ne, ap (λ k. dq.value k q) (beq_eq eq_key e), beq_self eq d)
    | inr e ↦ e
  ]

module _ {C Q K J : Type 0} {dq : DelayQueue C Q K} {eq_key : Eq K} (laws : IsDelayQueue dq eq_key)
    (eq : Eq C) where
  -- What the removal of an entry for `c` leaves timed: the workers of the other CIDs.
  pub Timed-others :
      (c : C) (j : K) (q rest : Q) (m : List (C × (J × K)))
      → dq.value j q ≡ some c
      → ((k : K) → eq_key.beq k j ≡ false → dq.value k rest ≡ dq.value k q)
      → All (λ w. (dq.value w.1.1 q ≡ some w.0) × (eq.beq c w.0 ≡ false)) m
      → Timed dq rest m
  Timed-others c j q rest [] f keeps ps = tt
  Timed-others c j q rest ((d, (h, k)) ∷ m) f keeps ((p, ne), ps) =
      (keeps k (apart dq eq_key eq q k j p f ne) ∙ p, Timed-others c j q rest m f keeps ps)

  -- the same, where the entry of the worker itself leaves the queue too
  pub Timed-twice :
      (c : C) (j k : K) (q rest : Q) (m : List (C × (J × K)))
      → dq.value j q ≡ some c
      → dq.value k q ≡ some c
      → ((i : K) → eq_key.beq i j ≡ false → dq.value i rest ≡ dq.value i q)
      → All (λ w. (dq.value w.1.1 q ≡ some w.0) × (eq.beq c w.0 ≡ false)) m
      → Timed dq (dq.try_remove k rest) m
  Timed-twice c j k q rest [] f g keeps ps = tt
  Timed-twice c j k q rest ((d, (h, i)) ∷ m) f g keeps ((p, ne), ps) = (
    laws.remove_keeps k i rest (apart dq eq_key eq q i k p g ne)
        ∙ (keeps i (apart dq eq_key eq q i j p f ne) ∙ p),
    Timed-twice c j k q rest m f g keeps ps,
  )

  Timed-try_remove :
      (c : C) (j : K) (q : Q) (m : List (C × (J × K)))
      → dq.value j q ≡ some c
      → Timed dq q m
      → has eq c m ≡ false
      → Timed dq (dq.try_remove j q) m
  Timed-try_remove c j q m f ps a =
      Timed-others c j q _ m f (λ k. laws.remove_keeps j k q) (All_of_absent eq _ c m a ps)

  -- The entries that `gc` removes are those of the workers that are finished.
  pub value-forget_finished :
      (is_finished : J → Bool) (c : C) (k : K) (m : List (C × (J × K))) (q : Q)
      → dq.value k q ≡ some c
      → has eq c m ≡ false
      → Timed dq q m
      → UniqueKeys eq m
      → dq.value k (forget_finished dq is_finished m q) ≡ some c
  unfolding forget_finished exists
  value-forget_finished is_finished c k [] q f a ps u = f
  value-forget_finished is_finished c k ((d, (h, j)) ∷ m) q f a (p, ps) (b, u) =
      elim (Bool-cases (is_finished h)) [
        | inl e ↦
            rw (e, forget_finished)
              (value-forget_finished is_finished c k m (dq.try_remove j q)
                (laws.remove_keeps j k q (apart dq eq_key eq q k j f p (beq_swap eq (ground arith)))
                  ∙ f)
                (ground arith) (Timed-try_remove d j q m p ps b) u)
        | inr e ↦
            rw (e, forget_finished)
              (value-forget_finished is_finished c k m q f (ground arith) ps u)
      ]

  pub Timed-forget_finished :
      (is_finished : J → Bool) (m : List (C × (J × K))) (q : Q)
      → Timed dq q m
      → UniqueKeys eq m
      → Timed dq (forget_finished dq is_finished m q) (select (λ w. not (is_finished w.1.0)) m)
  unfolding forget_finished select
  Timed-forget_finished is_finished [] q ps u = tt
  Timed-forget_finished is_finished ((d, (h, j)) ∷ m) q (p, ps) (b, u) =
      elim (Bool-cases (is_finished h)) [
        | inl e ↦
            rw (e, forget_finished)
              (Timed-forget_finished is_finished m (dq.try_remove j q)
                (Timed-try_remove d j q m p ps b) u)
        | inr e ↦
            rw (e, forget_finished)
              (
                value-forget_finished is_finished d j m q p b ps u,
                Timed-forget_finished is_finished m q ps u,
              )
      ]

  -- A new entry has a new key.
  pub value-inserted :
      (c : C) (t : ℕ) (q : Q) (m : List (C × (J × K)))
      → Timed dq q m
      → Timed dq (dq.insert c t q).1 m
  value-inserted c t q [] ps = tt
  value-inserted c t q ((d, (h, k)) ∷ m) (p, ps) =
      elim (Bool-cases (eq_key.beq k (dq.insert c t q).0)) [
        | inl e ↦ cc (ap (λ i. dq.value i q) (beq_eq eq_key e), laws.new_key c t q, p)
        | inr e ↦ (laws.insert_keeps c t q k e ∙ p, value-inserted c t q m ps)
      ]
