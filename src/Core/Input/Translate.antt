-- ===== src/Core/Input/Translate.antt =====
-- Inputs through Ipld: round trips, what a value reads as, and the errors.
use homestar.Prelude.{◌≡◌, refl, ◌∙◌, ◌≢◌, none, ap, inl, inr, Option-cases}
use homestar.Result.{ok, err}
use homestar.Ipld.{Ipld, Items, Fields, map, list, get}
use homestar.Ipld.Serde.{Serde, IsSerde}
use homestar.Core.Error.{Error}
use homestar.Core.Pointer.{
  new, Await, AwaitResult, ok_result, ok_branch, err_branch, ptr_branch, result, await_to_ipld,
  pointer_of_ipld,
}
use homestar.Core.InstructionResult.{
  InstructionResult, success, failure, just, result_to_ipld, result_of_ipld,
}
use homestar.Core.InstructionResult.Laws.{result_of_ipld-to_ipld}
use homestar.Core.Input.Defs.{
  Input, plain, deferred, arg, input_to_ipld, input_of_ipld, input_of_plain, branch_entry,
}

-- A plain value that spells neither a promise (no entry under a branch's key) nor a result.
abbrev pub IsPlain : {C F T : Type 0} → (Ipld C F → T) → Ipld C F → Type 0
IsPlain from (map m) =
    (get ok_branch m ≡ none) × (get err_branch m ≡ none) × (get ptr_branch m ≡ none)
IsPlain {C} {F} from (list v) = (o : Error C F (Unit {0})) × (result_of_ipld from (list v) ≡ err o)
IsPlain from x = Unit

abbrev pub IsCanonical : {C F T : Type 0} → (Ipld C F → T) → Input C F T → Type 0
IsCanonical from (plain x) = IsPlain from x
IsCanonical from _ = Unit

module _ {C F P : Type 0} (s : Serde C F P) (law : IsSerde s) where
  module _ {T : Type 0} (into : T → Ipld C F) (from : Ipld C F → T) where
    deferred_roundtrip :
        (c : C) (r : AwaitResult)
        → let a : Await C = record { instruction = new c; result = r } in
          input_of_ipld s from (await_to_ipld a) ≡ ok (deferred a)
    unfolding input_of_ipld await_to_ipld get pointer_of_ipld result
    deferred_roundtrip c ok_result = rw law.map_some (rw law.cid_some)
    deferred_roundtrip c _ = rw law.map_some (rw law.cid_some)

    list_is_no_map : (v : Items C F) → s.from_map (list v) ≡ none
    list_is_no_map v = elim (Option-cases (s.from_map (list v))) [
      | inl e ↦ e
      | inr (m, e) ↦ cc (law.map_only (list v) m e)
    ]

    arg_of_plain :
        ((t : T) → from (into t) ≡ t)
        → (r : InstructionResult T) → input_of_plain from (result_to_ipld into r) ≡ arg r
    unfolding input_of_plain
    arg_of_plain back r = rw (result_of_ipld-to_ipld into from back r)

    plain_of_list :
        (v : Items C F) → input_of_ipld s from (list v) ≡ ok (input_of_plain from (list v))
    unfolding input_of_ipld
    plain_of_list v = rw (list_is_no_map v)

    list_of_result : (r : InstructionResult T) → (v : Items C F) × (result_to_ipld into r ≡ list v)
    unfolding result_to_ipld
    list_of_result (success t) = (_, refl)
    list_of_result (failure t) = (_, refl)
    list_of_result (just t) = (_, refl)

    arg_roundtrip :
        ((t : T) → from (into t) ≡ t)
        → (r : InstructionResult T) → input_of_ipld s from (result_to_ipld into r) ≡ ok (arg r)
    arg_roundtrip back r =
        let (v, e) = list_of_result r in
        cc (
          ap (input_of_ipld s from) e,
          plain_of_list v,
          ap (input_of_plain from) e,
          arg_of_plain back r,
        )

    plain_of_map :
        (m : Fields C F)
        → branch_entry m ≡ none
        → input_of_ipld s from (map m) ≡ ok (input_of_plain from (map m))
    unfolding input_of_ipld
    plain_of_map m h = rw law.map_some (rw h)

    map_is_no_result : (m : Fields C F) → input_of_plain from (map m) ≡ plain (map m)
    unfolding input_of_plain result_of_ipld
    map_is_no_result m = refl

    list_is_no_result :
        (v : Items C F) (o : Error C F (Unit {0}))
        → result_of_ipld from (list v) ≡ err o
        → input_of_plain from (list v) ≡ plain (list v)
    unfolding input_of_plain
    list_is_no_result v o h = rw h

    plain_of_other :
        (x : Ipld C F)
        → ((m : Fields C F) → x ≢ map m)
        → input_of_ipld s from x ≡ ok (input_of_plain from x)
    unfolding input_of_ipld
    plain_of_other x h = elim (Option-cases (s.from_map x)) [
      | inl e ↦ rw e
      | inr (m, e) ↦ absurd (h m (law.map_only x m e))
    ]

    plain_roundtrip : (x : Ipld C F) → IsPlain from x → input_of_ipld s from x ≡ ok (plain x)
    unfolding branch_entry
    plain_roundtrip (map m) (a, b, c) = plain_of_map m (rw (a, b, c)) ∙ ap ok (map_is_no_result m)
    plain_roundtrip (list v) (o, h) = plain_of_list v ∙ ap ok (list_is_no_result v o h)
    plain_roundtrip x h =
        plain_of_other x (λ m q. cc) ∙ ap ok (unfold input_of_plain result_of_ipld in refl)

    -- Where serde reads as it documents, an input written as Ipld is read back as itself, if
    -- the payload's own conversions are inverse and the input, where it is plain, does not
    -- spell a promise or a result.
    pub input_of_ipld-to_ipld :
        ((t : T) → from (into t) ≡ t)
        → (i : Input C F T) → IsCanonical from i
        → input_of_ipld s from (input_to_ipld into i) ≡ ok i
    unfolding input_to_ipld
    input_of_ipld-to_ipld back (plain x) h = plain_roundtrip x h
    input_of_ipld-to_ipld back (deferred a) h = deferred_roundtrip a.instruction.cid a.result
    input_of_ipld-to_ipld back (arg r) h = arg_roundtrip back r
