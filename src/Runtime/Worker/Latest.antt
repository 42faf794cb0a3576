-- ===== src/Runtime/Worker/Latest.antt =====
-- Of the tasks of a batch that have one instruction, the last to finish.
use homestar.Prelude.{
  ◌≡◌, ap, sym, ◌∙◌, some, List, [], ◌∷◌, inl, inr, Bool-cases, if_of_true, if_of_false,
  if◌then◌else◌,
}
use homestar.Prelude.Classes.{Eq}
use homestar.Result.{Result, ok, err}
use homestar.Ipld.{Ipld}
use homestar.Foreign.{Foreign}
use homestar.Wasm.Io.{Output}
use homestar.Wasm.Value.Component.{Component}
use homestar.Runtime.Receipt.{Receipt, Failure, output_as_arg}
use homestar.Runtime.Resources.{get, insert}
use homestar.Runtime.Resources.Table.{beq_eq, get-insert_self, get-insert_ne}
use homestar.Runtime.Scheduler.{LinkMap}
use homestar.Runtime.Worker.{Action, look_up, finish, fail, receipt_of}

module _ {C F P : Type 0} (eq : Eq C) where
  abbrev pub same_instruction : Receipt C F P → Result Failure (Receipt C F P) → Receipt C F P
  same_instruction r (ok q) = if eq.beq r.instruction.cid q.instruction.cid then q else r
  same_instruction r (err _) = r

module _ {C F P U G H V D : Type 0} (e : Foreign C F P U) (eq : Eq C)
    (w : Component C F G H V D) where
  -- Of `r` and the receipts of the tasks that finish after it, the last with the instruction of `r`.
  abbrev pub latest : Receipt C F P → List (Action C F P (Output F G H V)) → Receipt C F P
  latest r [] = r
  latest r (finish d ∷ actions) = latest (same_instruction eq r (receipt_of e w d)) actions
  latest r (look_up c answer ∷ actions) = latest r actions
  latest r (fail ∷ actions) = latest r actions

module _ {C F P A : Type 0} (eq : Eq C) (from : Ipld C F → A) where
  -- A join puts its own output in place of that of an earlier task with its instruction.
  pub get-joined :
      (c : C) (r q : Receipt C F P) (m : LinkMap C A)
      → c ≡ r.instruction.cid
      → get eq c m ≡ some (output_as_arg from r)
      → (get eq c (insert eq q.instruction.cid (output_as_arg from q) m)
          ≡ some (output_as_arg from (same_instruction eq r (ok q))))
        × (c ≡ (same_instruction eq r (ok q)).instruction.cid)
  get-joined c r q m p h = elim (Bool-cases (eq.beq r.instruction.cid q.instruction.cid)) [
    | inl y ↦
        let same = p ∙ beq_eq eq y in
        (
          ap (λ k. get eq k (insert eq q.instruction.cid (output_as_arg from q) m)) same
              ∙ (get-insert_self eq q.instruction.cid (output_as_arg from q) m
                  ∙ ap (λ (x : Receipt C F P). some (output_as_arg from x))
                      (sym (if_of_true _ q r y))),
          same ∙ ap (λ (x : Receipt C F P). x.instruction.cid) (sym (if_of_true _ q r y)),
        )
    | inr z ↦ (
      get-insert_ne eq c q.instruction.cid (output_as_arg from q) m
            (ap (λ k. eq.beq k q.instruction.cid) p ∙ z)
          ∙ (h
              ∙ ap (λ (x : Receipt C F P). some (output_as_arg from x))
                  (sym (if_of_false _ q r z))),
      p ∙ ap (λ (x : Receipt C F P). x.instruction.cid) (sym (if_of_false _ q r z)),
    )
  ]
