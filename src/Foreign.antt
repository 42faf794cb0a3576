-- ===== src/Foreign.antt =====
-- What the code takes from other crates, besides libipld's serde: the texts of identifiers, URLs and
-- keys, the DAG-CBOR codec and the hash. `U` stands for `url::Url`. All of it is a parameter of the
-- model; `None` stands for an error, whose content the code only displays.
use homestar.Prelude.{ℕ, String, Option, some, ◌≡◌, List}
use homestar.Ipld.{Ipld}
use homestar.Ipld.Serde.{Serde, IsSerde}

pub record Foreign (C F P U : Type 0) : Type 0 where
  pub serde : Serde C F P
  pub open serde use *
  -- `Principle`: `Display` and `FromStr`
  pub principal_to_string : P → String
  pub principal_from_str : String → Option P
  -- `Url`: `Display` and `parse`
  pub url_to_string : U → String
  pub url_parse : String → Option U
  -- `Cid`: `Display`, `FromStr`, and `to_string_of_base(Base32Lower)`
  pub cid_to_string : C → String
  pub cid_from_str : String → Option C
  pub cid_to_base32 : C → Option String
  -- `DagCborCodec.encode`, and `Cid::new_v1(DAG_CBOR, Sha3_256.digest(bytes))`
  pub encode : Ipld C F → Option (List ℕ)
  pub digest_v1 : List ℕ → C
  -- `str::trim` followed by `to_lowercase`, which go by the Unicode tables
  pub trim_to_lowercase : String → String

-- What the crates state of these.
pub record IsForeign {C F P U : Type 0} (e : Foreign C F P U) : Type 0 where
  pub serde : IsSerde e.serde
  pub open serde use *
  -- a displayed value parses back to itself
  pub principal_text : (p : P) → e.principal_from_str (e.principal_to_string p) ≡ some p
  pub url_text : (u : U) → e.url_parse (e.url_to_string u) ≡ some u
  pub cid_text : (c : C) → e.cid_from_str (e.cid_to_string c) ≡ some c
