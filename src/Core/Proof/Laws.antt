-- ===== src/Core/Proof/Laws.antt =====
-- The Ipld form of a proof list: the round trip, and which lists are read.
use homestar.Prelude.{◌≡◌, refl, List, [], ◌∷◌, map}
use homestar.Core.Error.{from_ipld}
use homestar.Result.{>>=-eq-ok, ok_or-eq-ok, ok, ok_or}
use homestar.Ipld.{Items, nil, cons, list, link, to_items}
use homestar.Ipld.Serde.{Serde, IsSerde}
use homestar.Core.Proof.{Link, UcanPrf, prf_to_ipld, prf_of_ipld, links_of_items}

module _ {C F P : Type 0} (s : Serde C F P) (law : IsSerde s) where
  links_roundtrip :
      (ls : List (Link C)) → links_of_items s (to_items (map (λ l. link l.cid) ls)) ≡ ok ls
  unfolding links_of_items
  links_roundtrip [] = refl
  links_roundtrip (l ∷ ls) = rw law.cid_some (rw (links_roundtrip ls))

  -- Where serde reads as it documents, a proof written as Ipld is read back as itself.
  pub prf_of_ipld-to_ipld : (p : UcanPrf C) → prf_of_ipld s (prf_to_ipld p) ≡ ok p
  unfolding prf_of_ipld prf_to_ipld
  prf_of_ipld-to_ipld p = rw (links_roundtrip p.inner)

  links_only :
      (xs : Items C F) (ls : List (Link C))
      → links_of_items s xs ≡ ok ls
      → xs ≡ to_items (map (λ l. link l.cid) ls)
  unfolding links_of_items
  links_only nil ls h = cc
  links_only (cons x xs) ls h =
      let (c, e, q) = >>=-eq-ok (ok_or (s.from_cid x) from_ipld) _ h in
      let (r, er, qr) = >>=-eq-ok (links_of_items s xs) _ q in
      cc (law.cid_only x c (ok_or-eq-ok _ _ e), links_only xs r er)

  -- Where serde reads as it documents, a list is read as a proof only if it is the list of
  -- links that the proof is written as.
  pub prf_of_ipld_only :
      (xs : Items C F) (p : UcanPrf C) → prf_of_ipld s (list xs) ≡ ok p → list xs ≡ prf_to_ipld p
  unfolding prf_of_ipld prf_to_ipld
  prf_of_ipld_only xs p h =
      let (r, er, qr) = >>=-eq-ok (links_of_items s xs) _ h in cc (links_only xs r er)
