-- ===== src/Tests/Translation.antt =====
-- Promises, results, nonces, proofs and limits, written as Ipld and read back.
use homestar.Prelude.{ℕ, String, some, none, List, [], ◌∷◌}
use homestar.Ipld.{Items, map, list, string, link, bytes, field, end, cons, nil}
use homestar.Sample.{Value}
use homestar.Core.Pointer.{Await, new, ok_result}
use homestar.Core.InstructionResult.{InstructionResult, failure}
use homestar.Core.Proof.{UcanPrf}
use homestar.Core.Config.{Resources}

abbrev pub same : Value → Value
same x = x

abbrev pub promise : Await String
promise = record { instruction = new "bafyone"; result = ok_result }

abbrev pub odd_promise : Value
odd_promise = map (field "anything" (link "bafyone") end)

abbrev pub outcome : InstructionResult Value
outcome = failure (string "no such function")

abbrev spelled : Value
spelled = list (cons (string "error") (cons (string "no such function") nil))

abbrev pub twelve : List ℕ
twelve = 0 ∷ 1 ∷ 2 ∷ 3 ∷ 4 ∷ 5 ∷ 6 ∷ 7 ∷ 8 ∷ 9 ∷ 10 ∷ 11 ∷ []

abbrev pub twelve_bytes : Value
twelve_bytes = bytes twelve

abbrev pub proofs : UcanPrf String
proofs = record { inner = record { cid = "bafyproof" } ∷ record { cid = "bafyother" } ∷ [] }

abbrev proof_items : Items String ℕ
proof_items = cons (link "bafyproof") (cons (link "bafyother") nil)

abbrev limits : Resources
limits = record { fuel = some 5; memory = none; time = some (record { secs = 3; nanos = 1999999 }) }
