-- ===== src/Tests/Records.antt =====
-- A receipt and a workflow's information, as they are shared.
use homestar.Prelude.{ℕ, ◌≡◌, refl, String, Option, some, none, List, [], ◌∷◌, arith}
use homestar.Result.{ok, err, ◌>>=◌}
use homestar.Ipld.{null}
use homestar.Sample.{Value, foreign_code, foreign_code-IsForeign, same_text}
use homestar.Core.Pointer.{new}
use homestar.Core.Instruction.{to_cid}
use homestar.Core.Receipt as Invocation
use homestar.Runtime.Info.Translate.{info_to_ipld, info_of_ipld}
use homestar.Runtime.Info.Laws.{info_of_ipld-to_ipld}
use homestar.Runtime.Resources.Translate.{indexed_to_ipld, indexed_of_ipld}
use homestar.Runtime.Receipt.{invocation_capsule, try_with}
use homestar.Runtime.Record as Record
use homestar.Runtime.Record.{decode_capsule}
use homestar.Runtime.Record.Shared.{decode_capsule-invocation_capsule}
use homestar.Tests.Execution.{from_instruction, receipt}
use homestar.Tests.Scheduling.{info}

abbrev capsule : Value
capsule = elim (invocation_capsule foreign_code from_instruction) [ ok x ↦ x | err _ ↦ null ]

abbrev no_error : List ℕ → Option String
no_error value = none

abbrev reader : List ℕ → Option Value
reader value = some capsule

abbrev peer : Option String
peer = some "peer"

decode_capsule-invocation_capsule_example :
    decode_capsule foreign_code same_text no_error reader "bafyone" peer (1 ∷ [])
    ≡ ok (Record.receipt peer receipt)
decode_capsule-invocation_capsule_example =
    decode_capsule-invocation_capsule foreign_code same_text foreign_code-IsForeign no_error reader
      (new "bafyone") from_instruction receipt capsule (1 ∷ []) peer
      (unfold try_with to_cid in refl) refl
      (unfold invocation_capsule Invocation.receipt_to_ipld in refl) refl refl

info_of_ipld-to_ipld_example :
    info_of_ipld foreign_code same_text (info_to_ipld foreign_code info) ≡ (do
      resources ←
          indexed_of_ipld foreign_code same_text (indexed_to_ipld foreign_code info.resources)
      ok (record info { resources = resources }))
info_of_ipld-to_ipld_example =
    info_of_ipld-to_ipld foreign_code foreign_code-IsForeign same_text info (ground arith)
      (ground arith)
