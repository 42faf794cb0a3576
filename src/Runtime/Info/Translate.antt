-- ===== src/Runtime/Info/Translate.antt =====
-- The conversions of `Info` of homestar-runtime/src/workflow/info.rs to and from Ipld.
use mathlib.Core.List as List
use homestar.Prelude.{String, Option, none, some, [], ◌∷◌}
use homestar.Prelude.Int.{pos}
use homestar.Prelude.Classes.{Eq}
use homestar.Result.{Result, ok, ok_or, ◌>>=◌}
use homestar.Ipld.{Ipld, map, list, string, integer, link, null, get, from_list, to_items}
use homestar.Foreign.{Foreign}
use homestar.Runtime.Receipt.{Failure, failed}
use homestar.Runtime.Resources.Translate.{indexed_to_ipld, indexed_of_ipld}
use homestar.Runtime.Info.{Info}

abbrev pub workflow_tag : String
workflow_tag = "ipvm/workflow"

abbrev pub name_key : String
name_key = "name"

abbrev pub num_tasks_key : String
num_tasks_key = "num_tasks"

abbrev pub progress_key : String
progress_key = "progress"

abbrev pub progress_count_key : String
progress_count_key = "progress_count"

abbrev pub resources_key : String
resources_key = "resources"

abbrev pub name_to_ipld : {C F : Type 0} → Option String → Ipld C F
name_to_ipld none = null
name_to_ipld (some name) = string name

module _ {C F P U : Type 0} (e : Foreign C F P U) where
  -- `From<Info> for Ipld`
  unfoldable pub info_to_ipld : Info C U → Ipld C F
  unfolding from_list
  info_to_ipld i = map (
      from_list (
        ("cid", link i.cid)
        ∷ (name_key, name_to_ipld i.name)
        ∷ (num_tasks_key, integer (pos i.num_tasks))
        ∷ (progress_key, list (to_items (List.map link i.progress)))
        ∷ (progress_count_key, integer (pos i.progress_count))
        ∷ (resources_key, indexed_to_ipld e i.resources)
        ∷ []))

  -- the `and_then`s of the name, where null and whatever is no text count as no name
  abbrev pub name_of : Option (Ipld C F) → Option String
  name_of none = none
  name_of (some null) = none
  name_of (some x) = e.from_string x

  -- `TryFrom<Ipld> for Info`
  unfoldable pub info_of_ipld : Eq C → Ipld C F → Result Failure (Info C U)
  unfolding get
  info_of_ipld eq x = do
    m ← ok_or (e.from_map x) failed
    c ← ok_or (get "cid" m) failed
    cid ← ok_or (e.from_cid c) failed
    n ← ok_or (get num_tasks_key m) failed
    num_tasks ← ok_or (e.from_u32 n) failed
    p ← ok_or (get progress_key m) failed
    progress ← ok_or (e.from_cids p) failed
    q ← ok_or (get progress_count_key m) failed
    progress_count ← ok_or (e.from_u32 q) failed
    r ← ok_or (get resources_key m) failed
    resources ← indexed_of_ipld e eq r
    ok (record {
      cid = cid;
      name = name_of (get name_key m);
      num_tasks = num_tasks;
      progress = progress;
      progress_count = progress_count;
      resources = resources;
    })

  -- `Info::capsule`, before it is encoded
  unfoldable pub info_capsule : Info C U → Ipld C F
  unfolding info_to_ipld
  info_capsule i = map (from_list ((workflow_tag, info_to_ipld i) ∷ []))
