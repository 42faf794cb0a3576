-- ===== src/Core/Input/Links.antt =====
-- What the resolution of links keeps and what it leaves.
use text.Mathlib.Text.{◌==◌}
use homestar.Prelude.{◌≡◌, refl, String, Option, none, some, ap, inl, inr, Option-cases, Bool-cases}
use homestar.Ipld.{Ipld, Items, Fields, nil, cons, end, field, map, list, link}
use homestar.Core.Pointer.{ptr_branch}
use homestar.Core.InstructionResult.{
  InstructionResult, success, failure, just, into_inner, result_to_ipld,
}
use homestar.Core.Input.Resolve.{
  resolve_link, resolve_entry, resolve_links, resolve_items, resolve_fields,
}

-- No link in the value is one that the lookup answers.
abbrev mutual
  pub Settled : {C F R : Type 0} → (C → Option R) → Ipld C F → Type 0
  Settled lookup (map m) = SettledFields lookup m
  Settled lookup (list l) = SettledItems lookup l
  Settled lookup (link c) = lookup c ≡ none
  Settled lookup x = Unit

  pub SettledItems : {C F R : Type 0} → (C → Option R) → Items C F → Type 0
  SettledItems lookup nil = Unit
  SettledItems lookup (cons x xs) = Settled lookup x × SettledItems lookup xs

  pub SettledFields : {C F R : Type 0} → (C → Option R) → Fields C F → Type 0
  SettledFields lookup end = Unit
  SettledFields lookup (field k v m) = Settled lookup v × SettledFields lookup m

-- What the lookup answers holds no link that it answers again.
abbrev pub IsClosed :
    {C F T : Type 0} (into : T → Ipld C F) (lookup : C → Option (InstructionResult T)) → Type 0
IsClosed {C} {F} {T} into lookup =
    (c : C) (r : InstructionResult T) → lookup c ≡ some r → Settled lookup (into (into_inner r))

module _ {C F T : Type 0} (into : T → Ipld C F) (lookup : C → Option (InstructionResult T)) where
  link_kept : (c : C) → lookup c ≡ none → resolve_link into lookup c ≡ link c
  unfolding resolve_link
  link_kept c h = rw (h, resolve_link)

  entry_kept : (k : String) (v : Ipld C F) → Settled lookup v → resolve_entry into lookup k v v ≡ v
  unfolding resolve_entry
  entry_kept k (link c) h = rw (h, resolve_entry)
  entry_kept k _ h = refl

  mutual
    unfolding resolve_links

    links_kept : (x : Ipld C F) → Settled lookup x → resolve_links into lookup x ≡ x
    links_kept (map m) h = ap map (fields_kept m h)
    links_kept (list l) h = ap list (items_kept l h)
    links_kept (link c) h = link_kept c h
    links_kept _ h = refl

    items_kept : (l : Items C F) → SettledItems lookup l → resolve_items into lookup l ≡ l
    items_kept nil h = refl
    items_kept (cons x xs) h = cc (links_kept x h.0, items_kept xs h.1)

    fields_kept : (m : Fields C F) → SettledFields lookup m → resolve_fields into lookup m ≡ m
    fields_kept end h = refl
    fields_kept (field k v m) h = cc (links_kept v h.0, entry_kept k v h.0, fields_kept m h.1)

  -- A value none of whose links the lookup answers is left exactly as it was.
  pub resolve_links_of_Settled : (x : Ipld C F) → Settled lookup x → resolve_links into lookup x ≡ x
  resolve_links_of_Settled x h = links_kept x h

  module _ (closed : IsClosed into lookup) where
    resolve_link-Settled : (c : C) → Settled lookup (resolve_link into lookup c)
    unfolding resolve_link
    resolve_link-Settled c = elim (Option-cases (lookup c)) [
      | inl e ↦ rw (e, resolve_link) e
      | inr (r, e) ↦ rw (e, resolve_link) (closed c r e)
    ]

    result-Settled :
        (r : InstructionResult T)
        → Settled lookup (into (into_inner r))
        → Settled lookup (result_to_ipld into r)
    unfolding result_to_ipld
    result-Settled (success t) h = (tt, (h, tt))
    result-Settled (failure t) h = (tt, (h, tt))
    result-Settled (just t) h = (tt, (h, tt))

    link_entry-Settled :
        (k : String) (c : C) (x : Ipld C F)
        → Settled lookup (resolve_entry into lookup k (link c) x)
    unfolding resolve_entry
    link_entry-Settled k c x = elim (Option-cases (lookup c)) [
      | inl e ↦ rw (e, resolve_entry) e
      | inr (r, e) ↦ elim (Bool-cases (k == ptr_branch)) [
        | inl p ↦ rw (e, resolve_entry) (rw p (result-Settled r (closed c r e)))
        | inr p ↦ rw (e, resolve_entry) (rw p (closed c r e))
      ]
    ]

    entry-Settled :
        (k : String) (v x : Ipld C F)
        → Settled lookup x
        → Settled lookup (resolve_entry into lookup k v x)
    unfolding resolve_entry
    entry-Settled k (link c) x h = link_entry-Settled k c x
    entry-Settled k _ x h = h

    mutual
      unfolding resolve_links

      links-Settled : (x : Ipld C F) → Settled lookup (resolve_links into lookup x)
      links-Settled (map m) = fields-Settled m
      links-Settled (list l) = items-Settled l
      links-Settled (link c) = resolve_link-Settled c
      links-Settled _ = tt

      items-Settled : (l : Items C F) → SettledItems lookup (resolve_items into lookup l)
      items-Settled nil = tt
      items-Settled (cons x xs) = (links-Settled x, items-Settled xs)

      fields-Settled : (m : Fields C F) → SettledFields lookup (resolve_fields into lookup m)
      fields-Settled end = tt
      fields-Settled (field k v m) = (entry-Settled k v _ (links-Settled v), fields-Settled m)

    -- Where what the lookup answers holds no link that it answers again, one pass leaves no
    -- link that it answers, at any depth, and a second pass changes nothing.
    pub resolve_links-Settled :
        (x : Ipld C F)
        → let y = resolve_links into lookup x in
          Settled lookup y × (resolve_links into lookup y ≡ y)
    resolve_links-Settled x = (links-Settled x, links_kept _ (links-Settled x))
