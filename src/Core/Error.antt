-- ===== src/Core/Error.antt =====
-- homestar-core/src/workflow/error.rs. The foreign errors that a variant wraps (of the crates cid,
-- anyhow, libipld, url and of std) are only displayed, and are left out.
use homestar.Prelude.{String}
use homestar.Result.{Result, ok_or}
use homestar.Ipld.{Ipld, get, Fields}

pub data Error (C F : Type 0) (T : Type 0) : Type 0 where
  cid_encode : Error C F T
  condition_not_met : String → Error C F T
  dag_cbor_translation : Error C F T
  from_ipld : Error C F T
  invalid_discriminant : T → Error C F T
  missing_field : String → Error C F T
  parse_resource : Error C F T
  unknown : Error C F T
  unexpected_ipld_type : Ipld C F → Error C F T
  utf8 : Error C F T
  io : Error C F T

module _ {C F T : Type 0} where
  abbrev pub unexpected_ipld : Ipld C F → Error C F T
  unexpected_ipld x = unexpected_ipld_type x

  abbrev pub not_an_ipld_list : Error C F T
  not_an_ipld_list = from_ipld

-- `From<Error<Unit>> for Error<String>` and `From<Error<String>> for Error<Unit>`, which `?` applies.
module _ {C F : Type 0} where
  abbrev pub of_unit : Error C F (Unit {0}) → Error C F String
  of_unit e = unknown

  abbrev pub of_string : Error C F String → Error C F (Unit {0})
  of_string e = unknown

-- `map.get(KEY).ok_or_else(|| MissingField(KEY))`
abbrev pub require : {C F T : Type 0} → String → Fields C F → Result (Error C F T) (Ipld C F)
require k m = ok_or (get k m) (missing_field k)
