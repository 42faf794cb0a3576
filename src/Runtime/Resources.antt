-- ===== src/Runtime/Resources.antt =====
-- `Resource` and `IndexedResources` of homestar-runtime/src/workflow.rs. An `IndexMap` is the list of
-- its entries in the order of their insertion.
pub mod Table
pub mod Translate
use homestar.Prelude.{Option, none, some, List, [], ◌∷◌, if◌then◌else◌}
use homestar.Prelude.Classes.{Eq}

pub data Resource (C U : Type 0) : Type 0 where
  url : U → Resource C U
  cid : C → Resource C U

module _ {C V : Type 0} (eq : Eq C) where
  -- `IndexMap::get`
  unfoldable pub get : C → List (C × V) → Option V
  get k [] = none
  get k ((j, v) ∷ m) = if eq.beq k j then some v else get k m

  -- `IndexMap::insert`: the value at an equal key is replaced, in its place.
  unfoldable pub insert : C → V → List (C × V) → List (C × V)
  insert k v [] = (k, v) ∷ []
  insert k v ((j, w) ∷ m) = if eq.beq k j then (j, v) ∷ m else (j, w) ∷ insert k v m

  -- `entry(k).or_insert_with(..)`
  unfoldable pub insert_new : C → V → List (C × V) → List (C × V)
  insert_new k v [] = (k, v) ∷ []
  insert_new k v ((j, w) ∷ m) = if eq.beq k j then (j, w) ∷ m else (j, w) ∷ insert_new k v m

-- `IndexedResources(IndexMap<Cid, Vec<Resource>>)`
pub record IndexedResources (C U : Type 0) : Type 0 where
  pub map : List (C × List (Resource C U))

abbrev pub resources_of :
    {C U : Type 0} → Eq C → C → IndexedResources C U → Option (List (Resource C U))
resources_of eq c r = get eq c r.map
