-- ===== src/Core/Pointer/Laws.antt =====
-- Round trips of pointers and promises, and exactly which values read as a promise.
use homestar.Prelude.{◌≡◌, refl, String, some, arith}
use homestar.Result.{>>=-eq-ok, ok_or-eq-ok, ok, ok_or}
use homestar.Ipld.{Ipld, Fields, map, link, field, end}
use homestar.Ipld.Serde.{Serde, IsSerde}
use homestar.Core.Error.{from_ipld}
use homestar.Core.Pointer.{
  AwaitResult, ok_result, branch, result, Pointer, new, Await, pointer_to_ipld, await_of_fields,
  await_to_ipld, await_result_of_key, pointer_of_ipld, await_of_ipld,
}

-- `AwaitResult::result` inverts `AwaitResult::branch`.
pub result-branch : (r : AwaitResult) → result (branch r) ≡ some r
unfolding result
result-branch ok_result = refl
result-branch _ = refl

module _ {C F P : Type 0} (s : Serde C F P) (law : IsSerde s) where
  pub pointer_of_ipld-to_ipld : (p : Pointer C) → pointer_of_ipld s (pointer_to_ipld p) ≡ ok p
  unfolding pointer_of_ipld
  pointer_of_ipld-to_ipld p = rw (law.cid_some p.cid)

  await_roundtrip :
      (c : C) (r : AwaitResult)
      → let a : Await C = record { instruction = new c; result = r } in
        await_of_ipld s (await_to_ipld a) ≡ ok a
  unfolding await_of_ipld await_to_ipld pointer_of_ipld
  await_roundtrip c ok_result = rw law.map_some (rw law.cid_some)
  await_roundtrip c _ = rw law.map_some (rw law.cid_some)

  -- Where serde reads as it documents, a promise written as Ipld is read back as the same
  -- promise, on each of the three branches.
  pub await_of_ipld-to_ipld : (a : Await C) → await_of_ipld s (await_to_ipld a) ≡ ok a
  await_of_ipld-to_ipld a = await_roundtrip a.instruction.cid a.result

  -- Only a link reads as a pointer.
  pub pointer_of_ipld_only :
      (x : Ipld C F) (p : Pointer C) → pointer_of_ipld s x ≡ ok p → x ≡ pointer_to_ipld p
  unfolding pointer_of_ipld
  pointer_of_ipld_only x p h = ground (arith, law.cid_only x p.cid)

  fields_only :
      (m : Fields C F) (a : Await C)
      → await_of_fields s m ≡ ok a
      → (k : String) × (m ≡ field k (link a.instruction.cid) end)
        × (a.result ≡ await_result_of_key k)
  unfolding await_of_fields
  fields_only (field k v end) a h =
      let (p, e, q) = >>=-eq-ok (pointer_of_ipld s v) _ h in
      (k, cc (pointer_of_ipld_only v p e), cc)
  fields_only end a h = cc
  fields_only (field k v (field j w m)) a h = cc

  -- Where serde reads as it documents, a value reads as a promise only if it is a map of one
  -- entry, whose value is a link: the promise's instruction is that link, and the branch is
  -- chosen by the key.
  pub await_of_ipld_only :
      (x : Ipld C F) (a : Await C)
      → await_of_ipld s x ≡ ok a
      → (k : String) × (x ≡ map (field k (link a.instruction.cid) end))
        × (a.result ≡ await_result_of_key k)
  unfolding await_of_ipld
  await_of_ipld_only x a h =
      let (m, e, q) = >>=-eq-ok (ok_or (s.from_map x) from_ipld) _ h in
      let (k, em, er) = fields_only m a q in (k, cc (law.map_only x m (ok_or-eq-ok _ _ e)), er)

  -- Where serde reads as it documents, every map of one link reads as a promise, whatever its
  -- key: a key that is none of the three branches gives the branch `await/*`.
  pub await_of_ipld_any_key :
      (k : String) (c : C)
      → await_of_ipld s (map (field k (link c) end))
        ≡ ok (record { instruction = new c; result = await_result_of_key k })
  unfolding await_of_ipld pointer_of_ipld
  await_of_ipld_any_key k c = rw law.map_some (rw law.cid_some)
