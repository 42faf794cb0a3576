-- ===== src/Runtime/Resources/Translate.antt =====
-- The conversions of `IndexedResources` of homestar-runtime/src/workflow.rs to and from Ipld.
use homestar.Prelude.{List, [], ◌∷◌}
use homestar.Prelude.Classes.{Eq}
use homestar.Result.{Result, ok, err, ok_or, ◌>>=◌}
use homestar.Ipld.{Ipld, Fields, end, field, map, list, string, link, insert, to_items}
use homestar.Foreign.{Foreign}
use homestar.Runtime.Receipt.{Failure, failed}
use homestar.Runtime.Resources as Index
use homestar.Runtime.Resources.{Resource, url, cid, IndexedResources}

module _ {C F P U : Type 0} (e : Foreign C F P U) where
  abbrev pub rsc_to_ipld : Resource C U → Ipld C F
  rsc_to_ipld (url u) = string (e.url_to_string u)
  rsc_to_ipld (cid c) = link c

  abbrev pub rscs_to_ipld : List (Resource C U) → List (Ipld C F)
  rscs_to_ipld [] = []
  rscs_to_ipld (r ∷ rs) = rsc_to_ipld r ∷ rscs_to_ipld rs

  -- the `collect` into a `BTreeMap`
  unfoldable pub collect : List (C × List (Resource C U)) → Fields C F → Fields C F
  unfolding insert
  collect [] acc = acc
  collect ((k, rs) ∷ m) acc =
      collect m (insert (e.cid_to_string k) (list (to_items (rscs_to_ipld rs))) acc)

  -- `From<IndexedResources> for Ipld`
  unfoldable pub indexed_to_ipld : IndexedResources C U → Ipld C F
  unfolding collect
  indexed_to_ipld r = map (collect r.map end)

  abbrev pub rsc_of_ipld : Ipld C F → Result Failure (Resource C U)
  rsc_of_ipld (string t) = do u ← ok_or (e.url_parse t) failed; ok (url u)
  rsc_of_ipld (link c) = ok (cid c)
  rsc_of_ipld x = err failed

  unfoldable pub rscs_of_ipld : List (Ipld C F) → Result Failure (List (Resource C U))
  rscs_of_ipld [] = ok []
  rscs_of_ipld (x ∷ xs) = do r ← rsc_of_ipld x; rs ← rscs_of_ipld xs; ok (r ∷ rs)

  -- the `collect` into an `IndexMap`
  unfoldable pub read_entries :
      Eq C
      → Fields C F
      → List (C × List (Resource C U))
      → Result Failure (List (C × List (Resource C U)))
  unfolding rscs_of_ipld
  read_entries eq end acc = ok acc
  read_entries eq (field k v m) acc = do
    c ← ok_or (e.cid_from_str k) failed
    xs ← ok_or (e.from_vec v) failed
    rs ← rscs_of_ipld xs
    read_entries eq m (Index.insert eq c rs acc)

  -- `TryFrom<Ipld> for IndexedResources`
  unfoldable pub indexed_of_ipld : Eq C → Ipld C F → Result Failure (IndexedResources C U)
  unfolding read_entries
  indexed_of_ipld eq x = do
    m ← ok_or (e.from_map x) failed
    entries ← read_entries eq m []
    ok (record { map = entries })
