-- ===== src/Wasm/Value/Read/Laws.antt =====
-- Values of Ipld that pass through a component's values unchanged.
use text.Mathlib.Text.{◌==◌}
use text.Mathlib.TextEquality.{eq_iff}
use homestar.Prelude.{ℕ, ◌≡◌, refl, ap, sym, ◌∙◌, String, true, false, some, List, [], ◌∷◌, arith}
use mathlib.Core.Path.{subst}
use homestar.Prelude.Int.{ℤ, pos, negsuc}
use homestar.Result.{ok, ◌>>=◌}
use homestar.Ipld.{Ipld, Items, Fields}
use homestar.Ipld.Order.{
  IsSorted, AllBefore, append, insert_last, append-append, append_end, AllBefore-append,
  AllBefore-end,
}
use homestar.Wasm.Value.{Val, Vals, ValType, ValTypes, InterfaceType, new, ty}
use homestar.Wasm.Value.Component.{Component, IsComponent, AllHave}
use homestar.Wasm.Value.Read.{
  of_bytes, try_from, try_from_items, try_from_fields, try_from_first, if_list, new_list,
}
use homestar.Wasm.Value.Write.{to_ipld, to_items, to_fields, list_to, bytes_in}
use homestar.Wasm.Value.Read.Fits.{
  entry_types, int_fits, IsElement, Fits, FitItems, FitFields, Passes,
}

module _ {C F G H V D : Type 0} (w : Component C F G H V D) where
  integer-Passes : (t : ValType H) (v : ℤ) → int_fits t v ≡ true → Passes w t (Ipld.integer v)
  unfolding try_from to_ipld ty
  integer-Passes ValType.u8 (pos n) h = (Val.u8 n, rw h, refl, refl)
  integer-Passes ValType.u16 (pos n) h = (Val.u16 n, rw h, refl, refl)
  integer-Passes ValType.u32 (pos n) h = (Val.u32 n, rw h, refl, refl)
  integer-Passes ValType.u64 (pos n) h = (Val.u64 n, rw h, refl, refl)
  integer-Passes ValType.s8 v h = (Val.s8 v, rw h, refl, refl)
  integer-Passes ValType.s16 v h = (Val.s16 v, rw h, refl, refl)
  integer-Passes ValType.s32 v h = (Val.s32 v, rw h, refl, refl)
  integer-Passes ValType.s64 v h = (Val.s64 v, rw h, refl, refl)
  integer-Passes ValType.u8 (negsuc n) h = absurd (cc h)
  integer-Passes ValType.u16 (negsuc n) h = absurd (cc h)
  integer-Passes ValType.u32 (negsuc n) h = absurd (cc h)
  integer-Passes ValType.u64 (negsuc n) h = absurd (cc h)
  integer-Passes _ v h = absurd (cc h)

  bytes_lem : (b : List ℕ) → bytes_in {C = C} {F = F} {G = G} {H = H} {V = V} (of_bytes b) ≡ ok b
  unfolding bytes_in
  bytes_lem [] = refl
  bytes_lem (b ∷ bs) = rw (bytes_lem bs)

  all_bytes : (b : List ℕ) → AllHave ValType.u8 (of_bytes {F = F} {G = G} {H = H} {V = V} b)
  unfolding ty
  all_bytes [] = tt
  all_bytes (b ∷ bs) = (refl, all_bytes bs)

  list_to-element :
      {R : Type 0} (t : ValType H) (vs : Vals F G H V) (a b c : R)
      → IsElement t
      → AllHave t vs
      → list_to t vs a b c ≡ c
  unfolding list_to ty
  list_to-element (ValType.tuple ts) vs a b c h k = absurd h
  list_to-element ValType.u8 vs a b c h k = absurd h
  list_to-element t (Vals.cons (Val.u8 n) vs) a b c h (e, k) = absurd (subst IsElement (sym e) h)
  list_to-element _ Vals.nil a b c h k = refl
  list_to-element _ (Vals.cons _ vs) a b c h k = refl

  no_null : (t : String) (c : C) → IsComponent w → w.cid_try_from t ≡ some c → (t == "null") ≡ false
  no_null t c law e = ground (arith, eq_iff t "null", law.null_is_no_cid)

module _ {C F G H V D : Type 0} (w : Component C F G H V D) (law : IsComponent w) where
  -- what the entries of a map become
  PassFields : ValType H → Fields C F → Type 0
  PassFields t m =
      (vs : Vals F G H V) × (try_from_fields w m (entry_types t) t [] ≡ ok (vs, []))
      × AllHave (ValType.tuple (entry_types t)) vs
      × ((acc : Fields C F) → AllBefore acc m → IsSorted m → to_fields w vs acc ≡ ok (append acc m))

  PassItems : ValType H → Items C F → Type 0
  PassItems t xs =
      (vs : Vals F G H V) × (try_from_items w xs t ≡ ok vs) × AllHave t vs × (to_items w vs ≡ ok xs)

  link-Passes : (c : C) → Passes w ValType.string (Ipld.link c)
  unfolding try_from to_ipld ty
  link-Passes c =
      let (t, e, b) = law.link_text c in (Val.string t, rw e, refl, rw (no_null w t c law b, b))

  bytes_pass : (b : ℕ) (bs : List ℕ) → Passes w (ValType.list ValType.u8) (Ipld.bytes (b ∷ bs))
  unfolding try_from to_ipld ty
  bytes_pass b bs = (
    Val.list ValType.u8 (of_bytes (b ∷ bs)),
    rw (law.list_some ValType.u8 (of_bytes (b ∷ bs)) (all_bytes w (b ∷ bs))),
    refl,
    rw (bytes_lem w bs),
  )

  list-Passes :
      (t : ValType H) (xs : Items C F)
      → IsElement t
      → PassItems t xs
      → Passes w (ValType.list t) (Ipld.list xs)
  unfolding try_from to_ipld ty PassItems
  list-Passes t xs h (vs, e, a, b) =
      (Val.list t vs, rw (e, law.list_some t vs a), refl, list_to-element w t vs _ _ _ h a ∙ rw b)

  map-Passes :
      (t : ValType H) (m : Fields C F)
      → IsSorted m
      → PassFields t m
      → Passes w (ValType.list (ValType.tuple (entry_types t))) (Ipld.map m)
  unfolding try_from to_ipld ty PassFields
  map-Passes t m s (vs, e, a, b) = (
    Val.list (ValType.tuple (entry_types t)) vs,
    rw (e, law.list_some (ValType.tuple (entry_types t)) vs a),
    refl,
    rw (b Fields.end (AllBefore-end m) s),
  )

  mutual
    unfolding try_from

    -- A type by reference is read as the type.
    by_ref :
        (x : Ipld C F) (t : ValType H)
        → try_from w x (InterfaceType.type_ref t) ≡ try_from w x (InterfaceType.type t)
    by_ref (Ipld.list xs) t =
        ap
          (if_list (some t)
            (λ elem. do vs ← try_from_items w xs elem; l ← new_list w elem vs; ok (new l)))
          (by_ref_first xs t)
    by_ref _ t = refl

    by_ref_first :
        (xs : Items C F) (t : ValType H)
        → try_from_first w xs (InterfaceType.type_ref t)
          ≡ try_from_first w xs (InterfaceType.type t)
    by_ref_first Items.nil t = refl
    by_ref_first (Items.cons x xs) t = by_ref x t

  field-Passes :
      (t : ValType H) (k : String) (x : Ipld C F) (m : Fields C F)
      → Passes w t x
      → PassFields t m
      → PassFields t (Fields.field k x m)
  unfolding try_from to_ipld ty PassFields
  field-Passes t k x m (v, e, y, b) (vs, f, a, g) =
      let entry : Vals F G H V = Vals.cons (Val.string k) (Vals.cons v Vals.nil) in
      (
        Vals.cons (Val.tuple (entry_types t) entry) vs,
        rw (by_ref x t, e, law.tuple_some (entry_types t) entry (refl, (y, tt)), f),
        (refl, a),
        λ acc (h, hs) (n, s).
            rw (b, insert_last k x acc h)
              (g (append acc (Fields.field k x Fields.end)) (AllBefore-append acc k x m hs n) s
                ∙ ap ok (append-append acc k x m)),
      )

  mutual
    unfolding try_from to_ipld ty PassItems PassFields

    passes : (t : ValType H) (x : Ipld C F) → Fits w t x → Passes w t x
    passes ValType.string Ipld.null h = (Val.string "null", refl, refl, refl)
    passes ValType.string (Ipld.string s) (a, b) = (Val.string s, refl, refl, rw (a, b))
    passes ValType.string (Ipld.link c) h = link-Passes c
    passes ValType.bool (Ipld.bool v) h = (Val.bool v, refl, refl, refl)
    passes ValType.float64 (Ipld.float v) h = (Val.float64 v, refl, refl, refl)
    passes t (Ipld.integer v) h = integer-Passes w t v h
    passes (ValType.list ValType.u8) (Ipld.bytes (b ∷ bs)) h = bytes_pass b bs
    passes (ValType.list t) (Ipld.list xs) (h, k) = list-Passes t xs h (items_pass t xs k)
    passes
          (ValType.list (ValType.tuple (ValTypes.and ValType.string (ValTypes.and t ValTypes.end))))
          (Ipld.map m) (s, h) =
        map-Passes t m s (fields_pass t m h)
    passes _ _ h = absurd h

    items_pass : (t : ValType H) (xs : Items C F) → FitItems w t xs → PassItems t xs
    items_pass t Items.nil h = (Vals.nil, refl, tt, refl)
    items_pass t (Items.cons x xs) (h, k) =
        let (v, e, y, b) = passes t x h in
        let (vs, es, ys, bs) = items_pass t xs k in
        (Vals.cons v vs, rw (e, es), (y, ys), rw (b, bs))

    fields_pass : (t : ValType H) (m : Fields C F) → FitFields w t m → PassFields t m
    fields_pass t Fields.end h = (Vals.nil, refl, tt, λ acc b s. ap ok (append_end acc))
    fields_pass t (Fields.field k x m) (h, hs) =
        field-Passes t k x m (passes t x h) (fields_pass t m hs)

  -- Where the crates behave as they document, every value that fits a type is read at that type
  -- as a value of it, with no tags, and that value is written as the value of Ipld it came
  -- from.
  pub try_from-Passes : (t : ValType H) (x : Ipld C F) → Fits w t x → Passes w t x
  try_from-Passes t x h = passes t x h
