-- ===== src/Core/Instruction/Laws.antt =====
-- Instructions through Ipld.
use homestar.Prelude.{◌≡◌, arith, ap, String, none, some}
use homestar.Result.{>>=-eq-ok, ok_or-eq-ok, ok-injective, ok, err, map_err}
use homestar.Ipld.{Ipld, Fields, map, string, get}
use homestar.Foreign.{Foreign, IsForeign}
use homestar.Core.Error.{require, of_string, unknown}
use homestar.Core.Pointer.Laws.{pointer_of_ipld-to_ipld}
use homestar.Core.Nonce.{IsSized, nonce_of_ipld, nonce_of_ipld-to_ipld}
use homestar.Core.Principal.{Ability, ability_deserialize, ability_of_ipld}
use homestar.Core.Input.Defs.{input_of_ipld}
use homestar.Core.Input.Translate.{IsCanonical, input_of_ipld-to_ipld}
use homestar.Core.Instruction.{
  resource_key, op_key, input_key, nnc_key, nonce_or, resource_of, Instruction, RunInstruction,
  expanded, ptr, instruction_to_ipld, instruction_of_ipld, run_to_ipld, run_of_ipld,
}

-- What an instruction's own types guarantee, and that its input spells nothing else.
pub record IsWritable {C F U T : Type 0} (from : Ipld C F → T) (i : Instruction C F U T)
    : Type 0 where
  pub input : IsCanonical from i.input
  pub nnc : IsSized i.nnc

abbrev pub IsWritableRun : {C F U T : Type 0} → (Ipld C F → T) → RunInstruction C F U T → Type 0
IsWritableRun from (expanded i) = IsWritable from i
IsWritableRun from (ptr p) = Unit

module _ {C F P U T : Type 0} (e : Foreign C F P U) (law : IsForeign e) (into : T → Ipld C F)
    (from : Ipld C F → T) (back : (t : T) → from (into t) ≡ t) where
  -- An instruction written as Ipld is read back as itself, where the other crates read and
  -- print as they document, the payload's own conversions are inverse, the nonce has its
  -- array's size, and a plain input does not spell a promise or a result.
  pub instruction_of_ipld-to_ipld :
      (i : Instruction C F U T)
      → IsWritable from i
      → instruction_of_ipld e from (instruction_to_ipld e into i) ≡ ok i
  unfolding instruction_of_ipld instruction_to_ipld ability_deserialize
  instruction_of_ipld-to_ipld i w = rw (
    law.serde.map_some,
    law.url_text,
    law.serde.string_some,
    input_of_ipld-to_ipld e.serde law.serde into from back i.input w.input,
    nonce_of_ipld-to_ipld C F i.nnc w.nnc,
  )

  -- An instruction, expanded or by pointer, written as Ipld is read back as itself.
  pub run_of_ipld-to_ipld :
      (r : RunInstruction C F U T)
      → IsWritableRun from r
      → run_of_ipld e from (run_to_ipld e into r) ≡ ok r
  unfolding run_of_ipld run_to_ipld instruction_to_ipld
  run_of_ipld-to_ipld (expanded i) w =
      unfold instruction_to_ipld in rw (instruction_of_ipld-to_ipld i w)
  run_of_ipld-to_ipld (ptr p) w = rw (pointer_of_ipld-to_ipld e.serde law.serde p)

module _ {C F P U T : Type 0} (e : Foreign C F P U) (law : IsForeign e) (from : Ipld C F → T)
    (m : Fields C F) where
  ability_deserialize_only :
      (x : Ipld C F) (a : Ability) → ability_deserialize e x ≡ ok a → x ≡ string a.text
  unfolding ability_deserialize
  ability_deserialize_only x a h = ground (arith, law.serde.string_only x a.text)

  -- Where serde reads as it documents, the ability of an instruction that is read is the text
  -- under its key, as it stands: it is not trimmed or lowercased, as reading an `Ability` from
  -- the same text does.
  pub op_of_ipld :
      (i : Instruction C F U T)
      → instruction_of_ipld e from (map m) ≡ ok i
      → (get op_key m ≡ some (string i.op.text))
        × (ability_of_ipld e (string i.op.text)
            ≡ ok (record { text = e.trim_to_lowercase i.op.text }))
  unfolding instruction_of_ipld ability_of_ipld
  op_of_ipld i h =
      let (rsc, _, h1) =
        >>=-eq-ok (resource_of e (get resource_key m)) _ (rw law.serde.map_some at h) in
      let (t, et, h2) = >>=-eq-ok (require op_key m) _ h1 in
      let (op, eo, h3) = >>=-eq-ok (ability_deserialize e t) _ h2 in
      let (v, _, h4) = >>=-eq-ok (map_err of_string (require input_key m)) _ h3 in
      let (input, _, h5) = >>=-eq-ok (map_err of_string (input_of_ipld e.serde from v)) _ h4 in
      let (nnc, _, h6) = >>=-eq-ok (nonce_of_ipld (nonce_or (get nnc_key m))) _ h5 in
      let same = ap (λ (j : Instruction C F U T). j.op.text) (ok-injective h6) in
      (
        cc (ok_or-eq-ok (get op_key m) _ et, ability_deserialize_only t op eo, same),
        rw law.serde.string_some,
      )

  -- Where serde reads as it documents, if the resource and the ability of a map can be read and
  -- it has no input, the error is `Unknown`, and names no field.
  pub missing_input_error :
      (rsc : U) (t : String)
      → resource_of e (get resource_key m) ≡ ok rsc
      → get op_key m ≡ some (string t)
      → get input_key m ≡ none
      → instruction_of_ipld e from (map m) ≡ err unknown
  unfolding instruction_of_ipld ability_deserialize
  missing_input_error rsc t hr ht hi = rw (law.serde.map_some, hr, ht, law.serde.string_some, hi)
