-- ===== src/Wasm/Limits/Growth.antt =====
-- What the limits hold over a run: the engine asks with the size that a memory has (0 for a new one).
-- Where that is allowed it makes the memory the size that is asked for, or fails to.
use homestar.Prelude.{
  ℕ, ◌+◌, ◌-◌, ◌%◌, ◌^◌, ◌<◌, ◌≤◌, ◌≡◌, refl, ap, sym, ◌∙◌, Bool, true, false, Option, none, some,
  List, [], ◌∷◌, ◌++◌, arith, Bool-cases, inl, inr,
}
use homestar.Prelude.Vec.{All, All-append}
use homestar.Wasm.Limits.{StoreLimitsAsync, within, consumed_after, memory_growing, new}

abbrev pub total : List ℕ → ℕ
total [] = 0
total (n ∷ ns) = n + total ns

-- what a memory is after a request for `desired`, which the limits allow or not and the engine then
-- makes or not
abbrev pub answered : Bool → Bool → ℕ → ℕ → ℕ
answered true true n desired = desired
answered true false n desired = n
answered false made n desired = n

-- what was allowed and not made
abbrev pub unmade : Bool → Bool → ℕ → ℕ → ℕ
unmade true true n desired = 0
unmade true false n desired = desired - n
unmade false made n desired = 0

-- The limits `s`, the sizes of the memories, and what was allowed of growth and not made, which a run
-- from new limits reaches.
pub data Reached (max_memory max_table : Option ℕ) : StoreLimitsAsync → List ℕ → ℕ → Type 0 where
  start : Reached max_memory max_table (new max_memory max_table) [] 0
  create :
      (s : StoreLimitsAsync) (ns : List ℕ) (lost desired : ℕ) (made : Bool)
      → desired < 2 ^ 64
      → Reached max_memory max_table s ns lost
      → Reached max_memory max_table
          (memory_growing s 0 desired).1
          (answered (memory_growing s 0 desired).0 made 0 desired ∷ ns)
          (unmade (memory_growing s 0 desired).0 made 0 desired + lost)
  grow :
      (s : StoreLimitsAsync) (before : List ℕ) (n : ℕ) (after : List ℕ) (lost desired : ℕ)
      (made : Bool)
      → n ≤ desired
      → desired < 2 ^ 64
      → Reached max_memory max_table s (before ++ n ∷ after) lost
      → Reached max_memory max_table
          (memory_growing s n desired).1
          (before ++ answered (memory_growing s n desired).0 made n desired ∷ after)
          (unmade (memory_growing s n desired).0 made n desired + lost)

abbrev pub Below : Option ℕ → ℕ → Type 0
Below limit n = (n < 2 ^ 64) × (within limit n ≡ true)

-- The consumption is the size of all memories together and what was not made (modulo 2^64), and each
-- memory is within the limit.
abbrev pub Counted : Option ℕ → StoreLimitsAsync → List ℕ → ℕ → Type 0
Counted limit s ns lost =
    (s.max_memory_size ≡ limit)
    × (s.memory_consumed ≡ (total ns + lost) % 2 ^ 64)
    × All (Below limit) ns

total-append : (xs ys : List ℕ) → total (xs ++ ys) ≡ total xs + total ys
total-append [] ys = omega arith
total-append (x ∷ xs) ys = omega (arith, total-append xs ys)

consumed_lem :
    (t n d : ℕ) → n < 2 ^ 64 → d < 2 ^ 64 → consumed_after ((n + t) % 2 ^ 64) n d ≡ (d + t) % 2 ^ 64
consumed_lem t n d hn hd = omega arith

-- a growth that is allowed
allowed_lem :
    (limit : Option ℕ) (n d : ℕ) (made : Bool)
    → n ≤ d
    → Below limit n
    → Below limit d
    → (answered true made n d + unmade true made n d ≡ d) × Below limit (answered true made n d)
allowed_lem limit n d true le b h = (omega arith, h)
allowed_lem limit n d false le b h = (omega arith, b)

-- one request, with the memories other than the one it is about, and what was not made before it, of
-- size `t` together
answer_lem :
    (limit : Option ℕ) (s : StoreLimitsAsync) (n d t : ℕ) (made : Bool)
    → s.max_memory_size ≡ limit
    → s.memory_consumed ≡ (n + t) % 2 ^ 64
    → Below limit n
    → n ≤ d
    → d < 2 ^ 64
    → let (can_grow, after) = memory_growing s n d in
      (after.max_memory_size ≡ limit)
      × (after.memory_consumed
          ≡ (answered can_grow made n d + unmade can_grow made n d + t) % 2 ^ 64)
      × Below limit (answered can_grow made n d)
unfolding memory_growing
answer_lem limit s n d t made m c (b, w) le hd = elim (Bool-cases (within s.max_memory_size d)) [
  | inl e ↦
      let (whole, below) =
        allowed_lem limit n d made le (b, w) (hd, ap (λ o. within o d) (sym m) ∙ e) in
      rw e (
        m,
        ap (λ v. consumed_after v n d) c
            ∙ (consumed_lem t n d b hd ∙ ap (λ v. (v + t) % 2 ^ 64) (sym whole)),
        below,
      )
  | inr e ↦ rw e (m, c ∙ ap (λ v. v % 2 ^ 64) (omega arith), (b, w))
]

within_zero : (limit : Option ℕ) → within limit 0 ≡ true
within_zero none = refl
within_zero (some l) = ground arith

All-split :
    {A : Type 0} (P : A → Type 0) (xs : List A) (y : A) (zs : List A)
    → All P (xs ++ y ∷ zs)
    → All P xs × (P y × All P zs)
All-split P [] y zs (h, k) = (tt, (h, k))
All-split P (x ∷ xs) y zs (h, k) = let (a, b) = All-split P xs y zs k in ((h, a), b)

total-middle :
    (xs : List ℕ) (y : ℕ) (zs : List ℕ) → total (xs ++ y ∷ zs) ≡ y + (total xs + total zs)
total-middle xs y zs = omega (arith, total-append xs (y ∷ zs))

-- In every run of requests of memories that do not shrink, the memory consumed is exactly the
-- size of all memories and of the growths that were allowed and then not made (modulo 2^64),
-- and no memory is larger than the limit that the run began with, requests that were refused
-- included.
pub Reached-Counted :
    (max_memory max_table : Option ℕ) (s : StoreLimitsAsync) (ns : List ℕ) (lost : ℕ)
    → Reached max_memory max_table s ns lost
    → Counted max_memory s ns lost
Reached-Counted mm mt _ _ _ start = (refl, refl, tt)
Reached-Counted mm mt _ _ _ (create s ns lost d made hd r) =
    let (m, c, h) = Reached-Counted mm mt s ns lost r in
    let (m', c', b) =
      answer_lem mm s 0 d (total ns + lost) made m (c ∙ omega arith) (ground arith, within_zero mm)
        (omega arith) hd in
    (m', c' ∙ ap (λ v. v % 2 ^ 64) (omega arith), (b, h))
Reached-Counted mm mt _ _ _ (grow s before n after lost d made le hd r) =
    let (m, c, h) = Reached-Counted mm mt s (before ++ n ∷ after) lost r in
    let (hb, (hn, ha)) = All-split (Below mm) before n after h in
    let (m', c', b) =
      answer_lem mm s n d (total before + total after + lost) made m
        (c ∙ ap (λ t. t % 2 ^ 64) (omega (arith, total-middle before n after))) hn le hd in
    (
      m',
      c'
          ∙ ap (λ t. t % 2 ^ 64)
              (omega
                (arith, total-middle before (answered (memory_growing s n d).0 made n d) after)),
      All-append (Below mm) before _ hb (b, ha),
    )
