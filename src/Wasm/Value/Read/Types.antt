-- ===== src/Wasm/Value/Read/Types.antt =====
-- The type of the value that `RuntimeVal::try_from` makes.
use homestar.Prelude.{
  ℕ, ◌≡◌, refl, ap, sym, ◌∙◌, ◌⊎◌, inl, inr, Bool, true, false, Option, none, some, List, [],
}
use mathlib.Core.Path.{subst}
use homestar.Prelude.Int.{ℤ}
use homestar.Result.{Result, ok, ok_or, >>=-eq-ok, ok_or-eq-ok, ok-injective}
use homestar.Ipld.{Ipld, Items, Fields}
use homestar.Wasm.Value.{
  Val, Vals, ValType, ValTypes, InterfaceType, RuntimeVal, Failure, new, inner, ty,
}
use homestar.Wasm.Value.Component.{Component, IsComponent, cid_text}
use homestar.Wasm.Value.Read.{
  cast, null_of, bool_of, integer_of, float_of, link_of, bytes_of, if_list, second, map_types,
  try_from, try_from_items, try_from_first, try_from_fields, new_list, of_bytes,
}

-- The values that are made whatever the type is: a text, a float of 64 bits, and the `false` that
-- stands for an empty list.
abbrev pub IsLoose : {F G H V : Type 0} → Val F G H V → Type 0
IsLoose (Val.string s) = Unit
IsLoose (Val.float64 v) = Unit
IsLoose (Val.bool v) = v ≡ false
IsLoose v = ⊥

abbrev pub IsExpected : {F G H V : Type 0} → Option (ValType H) → Val F G H V → Type 0
IsExpected none v = Unit
IsExpected (some t) v = (ty v ≡ t) ⊎ IsLoose v

module _ {C F G H V : Type 0} where
  made :
      (o : Option (ValType H)) (v : Val F G H V) (r : RuntimeVal F G H V)
      → IsExpected o v
      → ◌≡◌ {A = Result (Failure C F) (RuntimeVal F G H V)} (ok (new v)) (ok r)
      → IsExpected o r.val
  made o v r e h = subst (λ (u : Val F G H V). IsExpected o u) (ap (λ q. q.val) (ok-injective h)) e

  cast-ty :
      (b : Bool) (v : Val F G H V) (r : RuntimeVal F G H V)
      → ◌≡◌ {A = Result (Failure C F) (RuntimeVal F G H V)} (cast b v) (ok r)
      → ty r.val ≡ ty v
  cast-ty true v r h = ap (λ (q : RuntimeVal F G H V). ty q.val) (sym (ok-injective h))
  cast-ty false v r h = absurd (cc h)

  null_of-IsExpected :
      (o : Option (ValType H)) (r : RuntimeVal F G H V)
      → ◌≡◌ {A = Result (Failure C F) (RuntimeVal F G H V)} (null_of o) (ok r)
      → IsExpected o r.val
  null_of-IsExpected none r h = tt
  null_of-IsExpected (some ValType.string) r h =
      made (some ValType.string) (Val.string "null") r (inr tt) h
  null_of-IsExpected (some _) r h = absurd (cc h)

  bool_of-IsExpected :
      (v : Bool) (o : Option (ValType H)) (r : RuntimeVal F G H V)
      → ◌≡◌ {A = Result (Failure C F) (RuntimeVal F G H V)} (bool_of v o) (ok r)
      → IsExpected o r.val
  unfolding ty
  bool_of-IsExpected v none r h = tt
  bool_of-IsExpected v (some ValType.bool) r h = inl (cast-ty true (Val.bool v) r h)
  bool_of-IsExpected v (some _) r h = absurd (cc h)

  integer_of-IsExpected :
      (v : ℤ) (o : Option (ValType H)) (r : RuntimeVal F G H V)
      → ◌≡◌ {A = Result (Failure C F) (RuntimeVal F G H V)} (integer_of v o) (ok r)
      → IsExpected o r.val
  unfolding integer_of ty
  integer_of-IsExpected v none r h = tt
  integer_of-IsExpected v (some ValType.u8) r h = inl (cast-ty _ _ r h)
  integer_of-IsExpected v (some ValType.u16) r h = inl (cast-ty _ _ r h)
  integer_of-IsExpected v (some ValType.u32) r h = inl (cast-ty _ _ r h)
  integer_of-IsExpected v (some ValType.u64) r h = inl (cast-ty _ _ r h)
  integer_of-IsExpected v (some ValType.s8) r h = inl (cast-ty _ _ r h)
  integer_of-IsExpected v (some ValType.s16) r h = inl (cast-ty _ _ r h)
  integer_of-IsExpected v (some ValType.s32) r h = inl (cast-ty _ _ r h)
  integer_of-IsExpected v (some ValType.s64) r h = inl (cast-ty _ _ r h)
  integer_of-IsExpected v (some _) r h = absurd (cc h)

  if_list-IsExpected :
      (o : Option (ValType H)) (as_list : ValType H → Result (Failure C F) (RuntimeVal F G H V))
      (otherwise : Result (Failure C F) (RuntimeVal F G H V)) (r : RuntimeVal F G H V)
      → ((t : ValType H) → as_list t ≡ ok r → ty r.val ≡ ValType.list t)
      → (otherwise ≡ ok r → IsExpected o r.val)
      → if_list o as_list otherwise ≡ ok r
      → IsExpected o r.val
  if_list-IsExpected none as_list otherwise r f g h = tt
  if_list-IsExpected (some (ValType.list t)) as_list otherwise r f g h = inl (f t h)
  if_list-IsExpected (some _) as_list otherwise r f g h = g h

loose : {F G H V : Type 0} (o : Option (ValType H)) (v : Val F G H V) → IsLoose v → IsExpected o v
loose none v h = tt
loose (some t) v h = inr h

pub map_types_only :
    {C F H : Type 0} (o : Option (ValType H)) (ts : ValTypes H) (t : ValType H)
    → ◌≡◌ {A = Result (Failure C F) (ValTypes H × ValType H)} (map_types o) (ok (ts, t))
    → (o ≡ some (ValType.list (ValType.tuple ts))) × (second ts ≡ some t)
unfolding map_types
map_types_only none ts t h = absurd (cc h)
map_types_only (some (ValType.list (ValType.tuple us))) ts t h =
    let (u, e, q) = >>=-eq-ok (ok_or (second us) _) _ h in
    let p = ok-injective q in
    let eq_ts : us ≡ ts = ap (λ a. a.0) p in
    let eq_t : u ≡ t = ap (λ a. a.1) p in (cc, cc (ok_or-eq-ok (second us) _ e))
map_types_only (some (ValType.list _)) ts t h = absurd (cc h)
map_types_only (some _) ts t h = absurd (cc h)

module _ {C F G H V D : Type 0} (w : Component C F G H V D) (law : IsComponent w) where
  new_list-ty :
      (t : ValType H) (vs : Vals F G H V) (v : Val F G H V)
      → new_list w t vs ≡ ok v
      → ty v ≡ ValType.list t
  unfolding ty
  new_list-ty t vs v h = ap ty (law.list_only t vs v (ok_or-eq-ok (w.new_list t vs) _ h)).0

  link_of-IsExpected :
      (c : C) (o : Option (ValType H)) (r : RuntimeVal F G H V)
      → link_of w c ≡ ok r
      → IsExpected o r.val
  unfolding link_of
  link_of-IsExpected c o r h =
      let (t, e, q) = >>=-eq-ok (ok_or (cid_text w c (w.version c)) _) _ h in
      made o (Val.string t) r (loose o (Val.string t) tt) q

  bytes_of-IsExpected :
      (b : List ℕ) (o : Option (ValType H)) (r : RuntimeVal F G H V)
      → bytes_of w b o ≡ ok r
      → IsExpected o r.val
  unfolding bytes_of
  bytes_of-IsExpected b o r h =
      if_list-IsExpected o _ _ r
        (λ t q.
          let (v, e, k) = >>=-eq-ok (new_list w t (of_bytes b)) _ q in
          ap (λ (u : RuntimeVal F G H V). ty u.val) (sym (ok-injective k)) ∙ new_list-ty t _ v e)
        (λ q. made o (Val.string (w.base64 b)) r (loose o (Val.string (w.base64 b)) tt) q) h

  map_of-IsExpected :
      (m : Fields C F) (t : InterfaceType H) (r : RuntimeVal F G H V)
      → try_from w (Ipld.map m) t ≡ ok r
      → IsExpected (inner t) r.val
  unfolding try_from
  map_of-IsExpected m t r h =
      let ((ts, elem), e, q) = >>=-eq-ok (map_types (inner t)) _ h in
      let ((vs, stack), f, p) = >>=-eq-ok (try_from_fields w m ts elem []) _ q in
      let (l, g, k) = >>=-eq-ok (new_list w (ValType.tuple ts) vs) _ p in
      let is_list =
        ap (λ (u : RuntimeVal F G H V). ty u.val) (sym (ok-injective k)) ∙ new_list-ty _ vs l g in
      subst (λ o. IsExpected o r.val) (sym (map_types_only (inner t) ts elem e).0) (inl is_list)

  float_of-IsExpected : (v : F) (o : Option (ValType H)) → IsExpected o (float_of w v o)
  unfolding ty
  float_of-IsExpected v none = tt
  float_of-IsExpected v (some ValType.float32) = inl refl
  float_of-IsExpected v (some _) = inr tt

  mutual
    unfolding try_from

    expected :
        (x : Ipld C F) (t : InterfaceType H) (r : RuntimeVal F G H V)
        → try_from w x t ≡ ok r
        → IsExpected (inner t) r.val
    expected Ipld.null t r h = null_of-IsExpected (inner t) r h
    expected (Ipld.bool v) t r h = bool_of-IsExpected v (inner t) r h
    expected (Ipld.integer v) t r h = integer_of-IsExpected v (inner t) r h
    expected (Ipld.float v) t r h =
        made (inner t) (float_of w v (inner t)) r (float_of-IsExpected v (inner t)) h
    expected (Ipld.string v) t r h =
        made (inner t) (Val.string v) r (loose (inner t) (Val.string v) tt) h
    expected (Ipld.bytes v) t r h = bytes_of-IsExpected v (inner t) r h
    expected (Ipld.link v) t r h = link_of-IsExpected v (inner t) r h
    expected (Ipld.list v) t r h =
        if_list-IsExpected (inner t) _ _ r
          (λ elem q.
            let (vs, e, p) = >>=-eq-ok (try_from_items w v elem) _ q in
            let (l, f, k) = >>=-eq-ok (new_list w elem vs) _ p in
            ap (λ (u : RuntimeVal F G H V). ty u.val) (sym (ok-injective k))
            ∙ new_list-ty elem vs l f)
          (λ q. expected_first v t r q) h
    expected (Ipld.map v) t r h = map_of-IsExpected v t r h

    expected_first :
        (xs : Items C F) (t : InterfaceType H) (r : RuntimeVal F G H V)
        → try_from_first w xs t ≡ ok r
        → IsExpected (inner t) r.val
    expected_first Items.nil t r h =
        made (inner t) (Val.bool false) r (loose (inner t) (Val.bool false) refl) h
    expected_first (Items.cons x xs) t r h = expected x t r h

  -- Where wasmtime's constructors check what they are given, a value that is made for a type
  -- has that type, or it is a text, a float of 64 bits, or the `false` that stands for an empty
  -- list.
  pub try_from-IsExpected :
      (x : Ipld C F) (t : InterfaceType H) (r : RuntimeVal F G H V)
      → try_from w x t ≡ ok r
      → IsExpected (inner t) r.val
  try_from-IsExpected x t r h = expected x t r h
