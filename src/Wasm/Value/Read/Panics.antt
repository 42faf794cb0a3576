-- ===== src/Wasm/Value/Read/Panics.antt =====
-- Where reading a value panics: `unwrap_list` and `unwrap_tuple`, at a map.
use homestar.Prelude.{ℕ, ◌≡◌, Bool, true, false, Option, none, some, List, []}
use homestar.Prelude.Int.{ℤ}
use homestar.Result.{Result, ok, err, ok_or, ◌>>=◌}
use homestar.Ipld.{Ipld, Items, Fields}
use homestar.Wasm.Value.{
  Val, Vals, ValType, ValTypes, InterfaceType, RuntimeVal, Failure, InterpreterError, raised,
  panicked, inner, Tags, new, new_with_tags,
}
use homestar.Wasm.Value.Component.{Component, cid_text}
use homestar.Wasm.Value.Read.{
  cast, null_of, bool_of, integer_of, link_of, bytes_of, map_types, try_from, try_from_items,
  try_from_first, try_from_fields, new_list, of_bytes,
}

-- Each map that is reached within a value, from the type that the value is read at, is read at a list
-- of tuples or at no type. (A tuple of less than two types ends the reading with an error.)
unfoldable mutual
  pub MapsFit : {C F H : Type 0} → Ipld C F → Option (ValType H) → Type 0
  MapsFit (Ipld.map m) none = Unit
  MapsFit (Ipld.map m) (some (ValType.list (ValType.tuple (ValTypes.and s (ValTypes.and t ts))))) =
      FieldsFit m t
  MapsFit (Ipld.map m) (some (ValType.list (ValType.tuple _))) = Unit
  MapsFit (Ipld.map m) (some _) = ⊥
  MapsFit (Ipld.list xs) (some (ValType.list t)) = ItemsFit xs t
  MapsFit (Ipld.list xs) t = FirstFits xs t
  MapsFit x t = Unit

  pub ItemsFit : {C F H : Type 0} → Items C F → ValType H → Type 0
  ItemsFit Items.nil t = Unit
  ItemsFit (Items.cons x xs) t = MapsFit x (some t) × ItemsFit xs t

  pub FirstFits : {C F H : Type 0} → Items C F → Option (ValType H) → Type 0
  FirstFits Items.nil t = Unit
  FirstFits (Items.cons x xs) t = MapsFit x t

  pub FieldsFit : {C F H : Type 0} → Fields C F → ValType H → Type 0
  FieldsFit Fields.end t = Unit
  FieldsFit (Fields.field key x m) t = MapsFit x (some t) × FieldsFit m t

module _ {C F : Type 0} where
  abbrev pub Panics : {A : Type 0} → Result (Failure C F) A → Type 0
  Panics r = r ≡ err panicked

  >>=-Panics :
      {A B : Type 0} (r : Result (Failure C F) A) (next : A → Result (Failure C F) B)
      → ¬ Panics r
      → ((a : A) → ¬ Panics (next a))
      → ¬ Panics (r >>= next)
  >>=-Panics (ok a) next h k = k a
  >>=-Panics (err failure) next h k = λ e. h (cc e)

  ok_or-Panics :
      {A : Type 0} (o : Option A) (failure : InterpreterError C F)
      → ¬ Panics (ok_or o (raised failure))
  ok_or-Panics none failure = λ e. cc e
  ok_or-Panics (some a) failure = λ e. cc e

module _ {C F G H V : Type 0} where
  cast-Panics : (b : Bool) (v : Val F G H V) → ¬ Panics {C = C} {F = F} (cast b v)
  cast-Panics true v = λ e. cc e
  cast-Panics false v = λ e. cc e

  null_of-Panics :
      (o : Option (ValType H)) → ¬ Panics {C = C} {F = F} {A = RuntimeVal F G H V} (null_of o)
  null_of-Panics none = λ e. cc e
  null_of-Panics (some ValType.string) = λ e. cc e
  null_of-Panics (some _) = λ e. cc e

  bool_of-Panics :
      (v : Bool) (o : Option (ValType H))
      → ¬ Panics {C = C} {F = F} {A = RuntimeVal F G H V} (bool_of v o)
  bool_of-Panics v none = λ e. cc e
  bool_of-Panics v (some ValType.bool) = λ e. cc e
  bool_of-Panics v (some _) = λ e. cc e

  integer_of-Panics :
      (v : ℤ) (o : Option (ValType H))
      → ¬ Panics {C = C} {F = F} {A = RuntimeVal F G H V} (integer_of v o)
  unfolding integer_of
  integer_of-Panics v none = cast-Panics _ _
  integer_of-Panics v (some ValType.u8) = cast-Panics _ _
  integer_of-Panics v (some ValType.u16) = cast-Panics _ _
  integer_of-Panics v (some ValType.u32) = cast-Panics _ _
  integer_of-Panics v (some ValType.u64) = cast-Panics _ _
  integer_of-Panics v (some ValType.s8) = cast-Panics _ _
  integer_of-Panics v (some ValType.s16) = cast-Panics _ _
  integer_of-Panics v (some ValType.s32) = cast-Panics _ _
  integer_of-Panics v (some ValType.s64) = cast-Panics _ _
  integer_of-Panics v (some _) = λ e. cc e

module _ {C F G H V D : Type 0} (w : Component C F G H V D) where
  new_list-Panics :
      {B : Type 0} (t : ValType H) (vs : Vals F G H V) (f : Val F G H V → B)
      → ¬ Panics {C = C} {F = F} (new_list w t vs >>= (λ l. ok (f l)))
  new_list-Panics t vs f =
      >>=-Panics (new_list w t vs) _ (ok_or-Panics (w.new_list t vs) _) (λ l e. cc e)

  link_of-Panics : (c : C) → ¬ Panics (link_of w c)
  unfolding link_of
  link_of-Panics c = >>=-Panics _ _ (ok_or-Panics (cid_text w c (w.version c)) _) (λ t e. cc e)

  bytes_of-Panics : (b : List ℕ) (o : Option (ValType H)) → ¬ Panics (bytes_of w b o)
  unfolding bytes_of
  bytes_of-Panics b none = λ e. cc e
  bytes_of-Panics b (some (ValType.list t)) = new_list-Panics t (of_bytes b) _
  bytes_of-Panics b (some _) = λ e. cc e

  list_of-Panics :
      (xs : Items C F) (t : ValType H)
      → ¬ Panics (try_from_items w xs t)
      → ¬ Panics (try_from_items w xs t >>= (λ vs. new_list w t vs >>= (λ l. ok (new l))))
  list_of-Panics xs t h = >>=-Panics _ _ h (λ vs. new_list-Panics t vs new)

  map_of-Panics :
      (m : Fields C F) (ts : ValTypes H) (t : ValType H)
      → ¬ Panics (try_from_fields w m ts t [])
      → ¬ Panics (
          try_from_fields w m ts t []
          >>= (λ p. new_list w (ValType.tuple ts) p.0 >>= (λ l. ok (new_with_tags l p.1))))
  map_of-Panics m ts t h = >>=-Panics _ _ h (λ p. new_list-Panics (ValType.tuple ts) p.0 _)

  mutual
    unfolding try_from try_from_items try_from_first try_from_fields map_types MapsFit ItemsFit
        FirstFits FieldsFit

    safe : (x : Ipld C F) (t : InterfaceType H) → MapsFit x (inner t) → ¬ Panics (try_from w x t)
    safe Ipld.null t h = null_of-Panics (inner t)
    safe (Ipld.bool v) t h = bool_of-Panics v (inner t)
    safe (Ipld.integer v) t h = integer_of-Panics v (inner t)
    safe (Ipld.float v) t h = λ e. cc e
    safe (Ipld.string v) t h = λ e. cc e
    safe (Ipld.bytes v) t h = bytes_of-Panics v (inner t)
    safe (Ipld.link v) t h = link_of-Panics v
    safe (Ipld.list xs) InterfaceType.any h = safe_first xs InterfaceType.any h
    safe (Ipld.list xs) (InterfaceType.type (ValType.list u)) h =
        list_of-Panics xs u (safe_items xs u h)
    safe (Ipld.list xs) (InterfaceType.type u) h = safe_first xs (InterfaceType.type u) h
    safe (Ipld.list xs) (InterfaceType.type_ref (ValType.list u)) h =
        list_of-Panics xs u (safe_items xs u h)
    safe (Ipld.list xs) (InterfaceType.type_ref u) h = safe_first xs (InterfaceType.type_ref u) h
    safe (Ipld.map m) InterfaceType.any h = λ e. cc e
    safe (Ipld.map m)
          (InterfaceType.type (ValType.list (ValType.tuple (ValTypes.and v (ValTypes.and u ts)))))
          h =
        map_of-Panics m (ValTypes.and v (ValTypes.and u ts)) u (safe_fields m _ u [] h)
    safe (Ipld.map m) (InterfaceType.type (ValType.list (ValType.tuple _))) h = λ e. cc e
    safe (Ipld.map m) (InterfaceType.type (ValType.list _)) h = elim h [ ]
    safe (Ipld.map m) (InterfaceType.type _) h = elim h [ ]
    safe (Ipld.map m)
          (InterfaceType.type_ref
            (ValType.list (ValType.tuple (ValTypes.and v (ValTypes.and u ts)))))
          h =
        map_of-Panics m (ValTypes.and v (ValTypes.and u ts)) u (safe_fields m _ u [] h)
    safe (Ipld.map m) (InterfaceType.type_ref (ValType.list (ValType.tuple _))) h = λ e. cc e
    safe (Ipld.map m) (InterfaceType.type_ref (ValType.list _)) h = elim h [ ]
    safe (Ipld.map m) (InterfaceType.type_ref _) h = elim h [ ]

    safe_items : (xs : Items C F) (t : ValType H) → ItemsFit xs t → ¬ Panics (try_from_items w xs t)
    safe_items Items.nil t h = λ e. cc e
    safe_items (Items.cons x xs) t (h, hs) =
        >>=-Panics _ _ (safe x (InterfaceType.type t) h)
          (λ r. >>=-Panics _ _ (safe_items xs t hs) (λ vs e. cc e))

    safe_first :
        (xs : Items C F) (t : InterfaceType H)
        → FirstFits xs (inner t)
        → ¬ Panics (try_from_first w xs t)
    safe_first Items.nil t h = λ e. cc e
    safe_first (Items.cons x xs) t h = safe x t h

    safe_fields :
        (m : Fields C F) (ts : ValTypes H) (t : ValType H) (stack : Tags)
        → FieldsFit m t
        → ¬ Panics (try_from_fields w m ts t stack)
    safe_fields Fields.end ts t stack h = λ e. cc e
    safe_fields (Fields.field key x m) ts t stack (h, hs) =
        >>=-Panics _ _ (safe x (InterfaceType.type_ref t) h) (λ r.
          >>=-Panics _ _ (ok_or-Panics (w.new_tuple ts _) _)
            (λ l. >>=-Panics _ _ (safe_fields m ts t _ hs) (λ a e. cc e)))

  -- Where each map that is reached within a value is read at a list of tuples, or at no type,
  -- the value is read without a panic at its type, whatever else goes wrong on the way.
  pub try_from-Panics :
      (x : Ipld C F) (t : InterfaceType H) → MapsFit x (inner t) → ¬ Panics (try_from w x t)
  try_from-Panics x t h = safe x t h
