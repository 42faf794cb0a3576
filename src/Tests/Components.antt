-- ===== src/Tests/Components.antt =====
-- Values that pass through a component.
use homestar.Prelude.{ℕ, ◌≡◌, refl, String, ◌↔◌, some, []}
use homestar.Prelude.Int.{pos}
use homestar.Result.{ok}
use homestar.Ipld.{Ipld, Items, Fields}
use homestar.Sample.{Value, serde, serde-IsSerde}
use homestar.Sample.Wasm.{one_cid, one_cid-IsComponent}
use homestar.Core.Input.Defs.{Input, Parsed, plain, parsed_with_fn}
use homestar.Wasm.Value.{Val, ValType, ValTypes, InterfaceType, RuntimeVal, new}
use homestar.Wasm.Value.Read.{try_from}
use homestar.Wasm.Value.Read.Types.{IsExpected, try_from-IsExpected}
use homestar.Wasm.Value.Read.Fits.{Passes}
use homestar.Wasm.Value.Read.Laws.{try_from-Passes}
use homestar.Wasm.Value.Read.Panics.{Panics, try_from-Panics, MapsFit, FieldsFit}
use homestar.Wasm.Io.{parse}
use homestar.Wasm.Io.Laws.{ParsesAs, parse_iff}

abbrev Number : Type 0
Number = Ipld (Unit {0}) ℕ

-- a map of lists of numbers
abbrev map_type : ValType (Unit {0})
map_type = ValType.list (
    ValType.tuple
      (ValTypes.and ValType.string (ValTypes.and (ValType.list ValType.u16) ValTypes.end)))

abbrev numbers : Number
numbers = Ipld.map (
    Fields.field "a" (Ipld.list (Items.cons (Ipld.integer (pos 700)) Items.nil))
      (Fields.field "b" (Ipld.list Items.nil) Fields.end))

try_from-Passes_example : Passes one_cid map_type numbers
try_from-Passes_example =
    try_from-Passes one_cid one_cid-IsComponent map_type numbers
      (((refl, tt), (tt, tt)), ((tt, (refl, tt)), ((tt, tt), tt)))

-- a map of maps, at a type of lists of tuples of lists of tuples, whose second value is no integer
abbrev nested : Ipld (Unit {0}) ℕ
nested = Ipld.map (
    Fields.field "a" (Ipld.map (Fields.field "b" (Ipld.integer (pos 1)) Fields.end))
      (Fields.field "c" (Ipld.map (Fields.field "d" Ipld.null Fields.end)) Fields.end))

abbrev pair_of : ValType (Unit {0}) → ValType (Unit {0})
pair_of t = ValType.list (ValType.tuple (ValTypes.and ValType.string (ValTypes.and t ValTypes.end)))

try_from-Panics_example :
    ¬ Panics (try_from one_cid nested (InterfaceType.type (pair_of (pair_of ValType.u8))))
unfolding MapsFit FieldsFit
try_from-Panics_example =
    try_from-Panics one_cid nested (InterfaceType.type (pair_of (pair_of ValType.u8)))
      ((tt, tt), ((tt, tt), tt))

abbrev seven : RuntimeVal ℕ ℕ (Unit {0}) (Unit {0})
seven = new (Val.u8 7)

try_from-IsExpected_example : IsExpected {F = ℕ} (some ValType.u8) seven.val
try_from-IsExpected_example =
    try_from-IsExpected one_cid one_cid-IsComponent (Ipld.integer (pos 7))
      (InterfaceType.type ValType.u8) seven (unfold try_from in refl)

abbrev call : Input String ℕ Value
call = plain (
    Ipld.map (
      Fields.field "args" (Ipld.list Items.nil)
        (Fields.field "func" (Ipld.string "add_one") Fields.end)))

abbrev parsed : Parsed String ℕ Value
parsed = parsed_with_fn "add_one" (record { inner = [] })

parse_iff_example :
    (parse serde (λ x. x) call ≡ ok parsed) ↔ ParsesAs serde serde-IsSerde (λ x. x) call parsed
parse_iff_example = parse_iff serde serde-IsSerde (λ x. x) call parsed
