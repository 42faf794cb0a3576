-- ===== src/Core/Proof.antt =====
-- homestar-core/src/workflow/prf.rs, with the typed links of homestar-core/src/ipld/link.rs.
pub mod Laws
use homestar.Prelude.{Option, List, [], ◌∷◌, map}
use homestar.Result.{Result, ok, err, ok_or, ◌>>=◌}
use homestar.Ipld.{Ipld, Items, nil, cons, list, link, to_items}
use homestar.Ipld.Serde.{Serde}
use homestar.Core.Error.{Error, from_ipld}

-- `Link<UcanIpld>`
pub record Link (C : Type 0) : Type 0 where
  pub cid : C

-- `struct UcanPrf(Vec<Link<UcanIpld>>)`
pub record UcanPrf (C : Type 0) : Type 0 where
  pub inner : List (Link C)

abbrev pub default : {C : Type 0} → UcanPrf C
default = record { inner = [] }

module _ {C F : Type 0} where
  -- `From<UcanPrf> for Ipld`
  unfoldable pub prf_to_ipld : UcanPrf C → Ipld C F
  prf_to_ipld prf = list (to_items (map (λ l. link l.cid) prf.inner))

module _ {C F P : Type 0} (s : Serde C F P) where
  -- the `try_fold` that pushes each link
  links_of_items : Items C F → Result (Error C F (Unit {0})) (List (Link C))
  links_of_items nil = ok []
  links_of_items (cons x xs) = do
    c ← ok_or (s.from_cid x) from_ipld
    rest ← links_of_items xs
    ok (record { cid = c } ∷ rest)

  -- `TryFrom<Ipld> for UcanPrf`
  unfoldable pub prf_of_ipld : Ipld C F → Result (Error C F (Unit {0})) (UcanPrf C)
  unfolding links_of_items
  prf_of_ipld (list inner) = do ls ← links_of_items inner; ok (record { inner = ls })
  prf_of_ipld x = ok default
