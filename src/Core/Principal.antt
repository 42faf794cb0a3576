-- ===== src/Core/Principal.antt =====
-- homestar-core/src/workflow/issuer.rs and ability.rs: the texts of principals and abilities.
use homestar.Prelude.{◌≡◌, String}
use homestar.Result.{Result, ok, ok_or, ◌>>=◌}
use homestar.Ipld.{Ipld, string}
use homestar.Foreign.{Foreign, IsForeign}
use homestar.Core.Error.{Error, from_ipld, dag_cbor_translation}

-- `struct Issuer(Principal)`
pub record Issuer (P : Type 0) : Type 0 where
  pub principal : P

-- `struct Ability(String)`
pub record Ability : Type 0 where
  pub text : String

module _ {C F P U : Type 0} (e : Foreign C F P U) where
  -- `Display for Issuer`
  abbrev pub issuer_to_string : Issuer P → String
  issuer_to_string i = e.principal_to_string i.principal

  -- `From<Issuer> for Ipld`
  unfoldable pub issuer_to_ipld : Issuer P → Ipld C F
  issuer_to_ipld i = string (e.principal_to_string i.principal)

  -- `TryFrom<Ipld> for Issuer`
  unfoldable pub issuer_of_ipld : Ipld C F → Result (Error C F (Unit {0})) (Issuer P)
  issuer_of_ipld x = do
    s ← ok_or (e.from_string x) from_ipld
    p ← ok_or (e.principal_from_str s) dag_cbor_translation
    ok (record { principal = p })

  -- `From<&str> for Ability`
  unfoldable pub ability_of_str : String → Ability
  ability_of_str t = record { text = e.trim_to_lowercase t }

  -- `From<Ability> for Ipld`
  abbrev pub ability_to_ipld : Ability → Ipld C F
  ability_to_ipld a = string a.text

  -- `TryFrom<Ipld> for Ability`
  unfoldable pub ability_of_ipld : Ipld C F → Result (Error C F (Unit {0})) Ability
  unfolding ability_of_str
  ability_of_ipld x = do t ← ok_or (e.from_string x) from_ipld; ok (ability_of_str t)

  -- `from_ipld::<Ability>`: the derived `Deserialize` of the transparent wrapper
  unfoldable pub ability_deserialize : Ipld C F → Result (Error C F (Unit {0})) Ability
  ability_deserialize x = do t ← ok_or (e.from_string x) from_ipld; ok (record { text = t })

  -- An issuer written as Ipld is read back as itself.
  pub issuer_of_ipld-to_ipld :
      IsForeign e → (i : Issuer P) → issuer_of_ipld (issuer_to_ipld i) ≡ ok i
  unfolding issuer_of_ipld issuer_to_ipld
  issuer_of_ipld-to_ipld law i =
      rw (law.serde.string_some (e.principal_to_string i.principal))
        (rw (law.principal_text i.principal))
