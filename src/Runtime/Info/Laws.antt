-- ===== src/Runtime/Info/Laws.antt =====
-- The round trip of a workflow's information through Ipld.
use homestar.Prelude.{◌≡◌, refl, ◌<◌, ◌^◌, String, Option, none, some}
use homestar.Prelude.Classes.{Eq}
use homestar.Result.{ok, ◌>>=◌}
use homestar.Ipld.{get}
use homestar.Foreign.{Foreign, IsForeign}
use homestar.Runtime.Resources.Translate.{indexed_to_ipld, indexed_of_ipld}
use homestar.Runtime.Info.{Info}
use homestar.Runtime.Info.Translate.{info_to_ipld, info_of_ipld, name_of, name_to_ipld}

module _ {C F P U : Type 0} (e : Foreign C F P U) (law : IsForeign e) (eq : Eq C) where
  name_of-to_ipld : (name : Option String) → name_of e (some (name_to_ipld name)) ≡ name
  name_of-to_ipld none = refl
  name_of-to_ipld (some name) = rw law.serde.string_some

  -- Where serde reads as it documents and the two counts are below 2^32, the information of a
  -- workflow that is written as Ipld is read back with every field unchanged but the resources,
  -- which become what is read of their own Ipld, and with an error just where that is one.
  pub info_of_ipld-to_ipld :
      (i : Info C U)
      → i.num_tasks < 2 ^ 32
      → i.progress_count < 2 ^ 32
      → info_of_ipld e eq (info_to_ipld e i) ≡ (do
        resources ← indexed_of_ipld e eq (indexed_to_ipld e i.resources)
        ok (record i { resources = resources }))
  unfolding info_of_ipld info_to_ipld get
  info_of_ipld-to_ipld i h k =
      rw
        (
          law.serde.map_some,
          law.serde.cid_some,
          law.serde.u32_some i.num_tasks h,
          law.serde.cids_some,
          law.serde.u32_some i.progress_count k,
          name_of-to_ipld i.name,
        )
        refl
