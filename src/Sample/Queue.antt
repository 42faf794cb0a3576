-- ===== src/Sample/Queue.antt =====
-- A concrete queue of expirations: a key is the position of its entry, with the time it expires at.
use mathlib.Core.Path.{subst}
use homestar.Prelude.{
  ℕ, zero, suc, String, ◌≡◌, refl, false, Option, none, some, List, [], ◌∷◌, arith, ◌==◌, ==_iff,
  leb, if◌then◌else◌, inl, inr, Bool-cases,
}
use homestar.Prelude.Classes.{Eq}
use homestar.Runtime.Runner.{DelayQueue, IsDelayQueue}

abbrev pub Entries : Type 0
Entries = List (Option (String × ℕ))

abbrev first_of : Option (String × ℕ) → Option String
first_of none = none
first_of (some (c, t)) = some c

unfoldable pub value : ℕ → Entries → Option String
value k [] = none
value zero (o ∷ q) = first_of o
value (suc k) (o ∷ q) = value k q

unfoldable pub insert_entry : String → ℕ → Entries → ℕ × Entries
insert_entry c t [] = (zero, some (c, t) ∷ [])
insert_entry c t (o ∷ q) = let (k, after) = insert_entry c t q in (suc k, o ∷ after)

unfoldable pub try_remove : ℕ → Entries → Entries
try_remove k [] = []
try_remove zero (o ∷ q) = none ∷ q
try_remove (suc k) (o ∷ q) = o ∷ try_remove k q

abbrev later : Option (String × ℕ) → Option (String × Entries) → Option (String × Entries)
later o none = none
later o (some (c, rest)) = some (c, o ∷ rest)

unfoldable pub poll_expired : ℕ → Entries → Option (String × Entries)
poll_expired now [] = none
poll_expired now (none ∷ q) = later none (poll_expired now q)
poll_expired now (some (c, t) ∷ q) =
    let rest = poll_expired now q in
    if leb t now then some (c, none ∷ q) else later (some (c, t)) rest

abbrev pub same_key : Eq ℕ
same_key = record { beq = λ a b. a == b; beq_iff = ==_iff }

abbrev pub entries : DelayQueue String Entries ℕ
entries = record {
  empty = [];
  insert = insert_entry;
  try_remove = try_remove;
  clear = λ q. [];
  poll_expired = poll_expired;
  value = value;
}

inserted :
    (c : String) (t : ℕ) (q : Entries)
    → value (insert_entry c t q).0 (insert_entry c t q).1 ≡ some c
unfolding value insert_entry
inserted c t [] = refl
inserted c t (o ∷ q) = inserted c t q

new_key : (c : String) (t : ℕ) (q : Entries) → value (insert_entry c t q).0 q ≡ none
unfolding value insert_entry
new_key c t [] = refl
new_key c t (o ∷ q) = new_key c t q

insert_keeps :
    (c : String) (t : ℕ) (q : Entries) (k : ℕ)
    → (k == (insert_entry c t q).0) ≡ false
    → value k (insert_entry c t q).1 ≡ value k q
unfolding value insert_entry
insert_keeps c t [] zero h = cc
insert_keeps c t [] (suc k) h = refl
insert_keeps c t (o ∷ q) zero h = refl
insert_keeps c t (o ∷ q) (suc k) h = insert_keeps c t q k (ground arith)

remove_keeps : (j k : ℕ) (q : Entries) → (k == j) ≡ false → value k (try_remove j q) ≡ value k q
unfolding value try_remove
remove_keeps j k [] h = refl
remove_keeps zero zero (o ∷ q) h = cc
remove_keeps zero (suc k) (o ∷ q) h = refl
remove_keeps (suc j) zero (o ∷ q) h = refl
remove_keeps (suc j) (suc k) (o ∷ q) h = remove_keeps j k q (ground arith)

-- what is left of a queue is the queue without one entry, whose value is returned
abbrev Same : ℕ → Entries → Entries → Type 0
Same j q rest = (k : ℕ) → (k == j) ≡ false → value k rest ≡ value k q

abbrev IsLeft : Entries → Option (String × Entries) → Type 0
IsLeft q none = Unit
IsLeft q (some (c, rest)) = (j : ℕ) × (value j q ≡ some c) × Same j q rest

Same-cons :
    (o : Option (String × ℕ)) (j : ℕ) (q rest : Entries)
    → Same j q rest
    → Same (suc j) (o ∷ q) (o ∷ rest)
unfolding value
Same-cons o j q rest h zero ne = refl
Same-cons o j q rest h (suc k) ne = h k (ground arith)

Same-here : (o : Option (String × ℕ)) (q : Entries) → Same zero (o ∷ q) (none ∷ q)
unfolding value
Same-here o q zero ne = cc
Same-here o q (suc k) ne = refl

later-IsLeft :
    (o : Option (String × ℕ)) (q : Entries) (p : Option (String × Entries))
    → IsLeft q p
    → IsLeft (o ∷ q) (later o p)
unfolding value
later-IsLeft o q none h = tt
later-IsLeft o q (some (c, rest)) (j, f, keeps) = (suc j, f, Same-cons o j q rest keeps)

poll_expired-IsLeft : (now : ℕ) (q : Entries) → IsLeft q (poll_expired now q)
unfolding poll_expired value
poll_expired-IsLeft now [] = tt
poll_expired-IsLeft now (none ∷ q) = later-IsLeft none q _ (poll_expired-IsLeft now q)
poll_expired-IsLeft now (some (c, t) ∷ q) = elim (Bool-cases (leb t now)) [
  | inl e ↦ rw e (zero, refl, Same-here (some (c, t)) q)
  | inr e ↦ rw e (later-IsLeft (some (c, t)) q _ (poll_expired-IsLeft now q))
]

pub entries_laws : IsDelayQueue entries same_key
entries_laws = record {
  inserted = inserted;
  new_key = new_key;
  insert_keeps = insert_keeps;
  remove_keeps = remove_keeps;
  expired = λ now q rest c e. subst (IsLeft q) e (poll_expired-IsLeft now q);
}
