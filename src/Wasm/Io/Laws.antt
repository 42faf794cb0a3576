-- ===== src/Wasm/Io/Laws.antt =====
-- Which inputs are parsed, and as what.
use homestar.Prelude.{◌≡◌, refl, ap, sym, ◌∙◌, ◌↔◌, String, some}
use homestar.Result.{ok, ok_or, map_err, >>=-eq-ok, ok_or-eq-ok, map_err-eq-ok, ok-injective}
use homestar.Ipld.{Ipld, Items, Fields, get}
use homestar.Ipld.Serde.{Serde, IsSerde}
use homestar.Core.Input.Defs.{
  Input, plain, deferred, arg, Args, Parsed, parsed_with_fn, args_of_ipld, args_of_items,
}
use homestar.Wasm.Io.{to_workflow, func_key, args_key, parse}

module _ {C F P T : Type 0} (s : Serde C F P) (law : IsSerde s) (from : Ipld C F → T) where
  -- The input is a map with a function's name and a list of arguments, which `p` holds.
  abbrev pub ParsesAs : Input C F T → Parsed C F T → Type 0
  ParsesAs i p =
      (m : Fields C F) × (xs : Items C F) × (name : String) × (i ≡ plain (Ipld.map m))
      × (get func_key m ≡ some (Ipld.string name))
      × (get args_key m ≡ some (Ipld.list xs))
      × (p ≡ parsed_with_fn name (record { inner = args_of_items s from xs }))

  args_of_ipld_only :
      (x : Ipld C F) (a : Args C F T)
      → args_of_ipld s from x ≡ ok a
      → (xs : Items C F) × (x ≡ Ipld.list xs) × (a ≡ record { inner = args_of_items s from xs })
  unfolding args_of_ipld
  args_of_ipld_only (Ipld.list xs) a h = (xs, refl, sym (ok-injective h))
  args_of_ipld_only _ a h = absurd (cc h)

  parse_only : (i : Input C F T) (p : Parsed C F T) → parse s from i ≡ ok p → ParsesAs i p
  unfolding parse
  parse_only (plain x) p h =
      let (m, em, h1) = >>=-eq-ok (ok_or (s.from_map x) _) _ h in
      let (func, ef, h2) = >>=-eq-ok (ok_or (get func_key m) _) _ h1 in
      let (wasm_args, ea, h3) = >>=-eq-ok (ok_or (get args_key m) _) _ h2 in
      let (args, el, h4) = >>=-eq-ok (map_err to_workflow (args_of_ipld s from wasm_args)) _ h3 in
      let (name, en, h5) = >>=-eq-ok (ok_or (s.from_string func) _) _ h4 in
      let (xs, ex, eargs) = args_of_ipld_only wasm_args args (map_err-eq-ok to_workflow _ el) in
      (
        m,
        xs,
        name,
        cc (law.map_only x m (ok_or-eq-ok _ _ em)),
        cc (ok_or-eq-ok (get func_key m) _ ef, law.string_only func name (ok_or-eq-ok _ _ en)),
        cc (ok_or-eq-ok (get args_key m) _ ea),
        sym (ok-injective h5) ∙ ap (parsed_with_fn name) eargs,
      )
  parse_only (deferred a) p h = absurd (cc h)
  parse_only (arg r) p h = absurd (cc h)

  parse_of : (i : Input C F T) (p : Parsed C F T) → ParsesAs i p → parse s from i ≡ ok p
  unfolding parse args_of_ipld
  parse_of i p (m, xs, name, ei, ef, ea, ep) = rw (ei, ep, law.map_some, ef, ea, law.string_some)

  -- Where serde reads as it documents, an input is parsed exactly when it is a map with a text
  -- under `func` and a list under `args`, into that text and the arguments that the list's
  -- values read as.
  pub parse_iff : (i : Input C F T) (p : Parsed C F T) → (parse s from i ≡ ok p) ↔ ParsesAs i p
  parse_iff i p = (parse_only i p, parse_of i p)
