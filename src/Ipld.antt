-- ===== src/Ipld.antt =====
-- `libipld::Ipld`, the value type of every message, with its `BTreeMap<String, Ipld>` kept in key
-- order. `C` stands for `libipld::Cid` and `F` for `f64`: the code moves both and looks into neither.
-- An `Ipld` holds lists and maps of itself, so these are the types `Items` and `Fields` of one block.
pub mod Maps
pub mod Order
pub mod Serde
use Prim.Native.String.{compare}
use Prim.Native.Nat.{Ordering}
use text.Mathlib.Text.{◌==◌}
use homestar.Prelude.{ℕ, suc, String, Bool, Option, none, some, List, [], ◌∷◌, if◌then◌else◌}
use homestar.Prelude.Int.{ℤ}

mutual
  pub data Ipld (C F : Type 0) : Type 0 where
    null : Ipld C F
    bool : Bool → Ipld C F
    integer : ℤ → Ipld C F
    float : F → Ipld C F
    string : String → Ipld C F
    bytes : List ℕ → Ipld C F
    list : Items C F → Ipld C F
    map : Fields C F → Ipld C F
    link : C → Ipld C F

  pub data Items (C F : Type 0) : Type 0 where
    nil : Items C F
    cons : Ipld C F → Items C F → Items C F

  pub data Fields (C F : Type 0) : Type 0 where
    end : Fields C F
    field : String → Ipld C F → Fields C F → Fields C F

module _ {C F : Type 0} where
  -- `BTreeMap::insert`: the value at an equal key is replaced.
  unfoldable pub insert : String → Ipld C F → Fields C F → Fields C F
  insert k v end = field k v end
  insert k v (field j w m) = elim (compare k j) [
    | Ordering.lt ↦ field k v (field j w m)
    | Ordering.eq ↦ field k v m
    | Ordering.gt ↦ field j w (insert k v m)
  ]

  -- `BTreeMap::get`.
  unfoldable pub get : String → Fields C F → Option (Ipld C F)
  get k end = none
  get k (field j w m) = if k == j then some w else get k m

  -- `BTreeMap::len`.
  abbrev pub count : Fields C F → ℕ
  count end = 0
  count (field j w m) = suc (count m)

  -- `BTreeMap::from([(k, v), ..])`.
  unfoldable pub from_list : List (String × Ipld C F) → Fields C F
  unfolding insert
  from_list [] = end
  from_list ((k, v) ∷ r) = insert k v (from_list r)

  -- `Vec<Ipld>` as the program's lists.
  abbrev pub to_items : List (Ipld C F) → Items C F
  to_items [] = nil
  to_items (x ∷ xs) = cons x (to_items xs)

  abbrev pub of_items : Items C F → List (Ipld C F)
  of_items nil = []
  of_items (cons x xs) = x ∷ of_items xs
