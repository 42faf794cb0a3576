-- ===== src/Core/Input/Readings.antt =====
-- What a value reads as, as an input, and how reading one fails.
use mathlib.Core.Option.{some-injective}
use mathlib.Core.Path.{subst}
use homestar.Prelude.{
  ◌≡◌, refl, ◌∙◌, String, Option, none, some, arith, ap, inl, inr, Option-cases, sym,
}
use homestar.Result.{
  map_err-eq-ok, ok-injective, >>=-eq-ok, ok_or-eq-ok, Result, ok, err, ok_or, map_err,
}
use homestar.Ipld.{Ipld, Fields, map, link, get}
use homestar.Ipld.Serde.{Serde, IsSerde}
use homestar.Core.Error.{Error, unknown, of_unit, invalid_discriminant}
use homestar.Core.Pointer.{
  AwaitResult, ok_result, error_result, ptr_result, ok_branch, err_branch, ptr_branch, branch,
  result, pointer_of_ipld,
}
use homestar.Core.Pointer.Laws.{result-branch, pointer_of_ipld_only}
use homestar.Core.InstructionResult.{InstructionResult, result_to_ipld, result_of_ipld}
use homestar.Core.InstructionResult.Laws.{result_of_ipld_only}
use homestar.Core.Input.Defs.{
  Input, plain, deferred, arg, input_of_ipld, input_of_map, input_of_branch, plain_or_arg,
  input_of_entry, input_of_plain, branch_entry,
}

-- How a value that reads as an input relates to it: a plain input is the value, a result is what the
-- value spells, and a promise is a branch of a map, whose entry under the branch's key is the link.
abbrev pub ReadsAs : {C F : Type 0} → Ipld C F → Input C F (Ipld C F) → Type 0
ReadsAs x (plain y) = y ≡ x
ReadsAs x (arg r) = x ≡ result_to_ipld (λ y. y) r
ReadsAs {C} {F} x (deferred a) =
    (m : Fields C F) × (x ≡ map m) × (get (branch a.result) m ≡ some (link a.instruction.cid))

module _ {C F : Type 0} (m : Fields C F) (b : String) (v : Ipld C F) where
  entry_found :
      (r : AwaitResult) (w : Ipld C F)
      → get (branch r) m ≡ some w
      → ◌≡◌ {A = Option (String × Ipld C F)} (some (branch r, w)) (some (b, v))
      → (get b m ≡ some v) × ((q : AwaitResult) × (result b ≡ some q) × (branch q ≡ b))
  entry_found r w e h =
      let p = some-injective _ _ h in (cc, (r, cc (result-branch r), ap (λ t. t.0) p))

  branch_entry_found :
      branch_entry m ≡ some (b, v)
      → (get b m ≡ some v) × ((q : AwaitResult) × (result b ≡ some q) × (branch q ≡ b))
  unfolding branch_entry
  branch_entry_found h = elim (Option-cases (get ok_branch m)) [
    | inr (w, e) ↦ entry_found ok_result w e (rw e at h)
    | inl n ↦ elim (Option-cases (get err_branch m)) [
      | inr (w, e) ↦ entry_found error_result w e (rw (n, e) at h)
      | inl k ↦ elim (Option-cases (get ptr_branch m)) [
        | inr (w, e) ↦ entry_found ptr_result w e (rw (n, k, e) at h)
        | inl j ↦ absurd (cc (rw (n, k, j) at h))
      ]
    ]
  ]

module _ {C F : Type 0} (x : Ipld C F) where
  plain_or_arg-ReadsAs :
      (o : Result (Error C F (Unit {0})) (InstructionResult (Ipld C F)))
      → result_of_ipld (λ y. y) x ≡ o
      → ReadsAs x (plain_or_arg x o)
  unfolding plain_or_arg
  plain_or_arg-ReadsAs (ok r) h = result_of_ipld_only x r h
  plain_or_arg-ReadsAs (err e) h = refl

  input_of_plain-ReadsAs : ReadsAs x (input_of_plain (λ y. y) x)
  unfolding input_of_plain
  input_of_plain-ReadsAs = plain_or_arg-ReadsAs (result_of_ipld (λ y. y) x) refl

module _ {C F P : Type 0} (s : Serde C F P) (law : IsSerde s) where
  input_of_entry-ReadsAs :
      (x : Ipld C F) (m : Fields C F) (b : String) (v : Ipld C F) (i : Input C F (Ipld C F))
      → x ≡ map m
      → branch_entry m ≡ some (b, v)
      → input_of_entry s (λ y. y) b v ≡ ok i
      → ReadsAs x i
  unfolding input_of_entry
  input_of_entry-ReadsAs x m b v i em eb h =
      let (p, e, q) = >>=-eq-ok (map_err of_unit (pointer_of_ipld s v)) _ h in
      let (r, er, qr) = >>=-eq-ok (ok_or (result b) (invalid_discriminant b)) _ q in
      let (got, known) = branch_entry_found m b v eb in
      let is_link = pointer_of_ipld_only s law v p (map_err-eq-ok of_unit _ e) in
      let same = some-injective _ _ (sym known.1 ∙ ok_or-eq-ok _ _ er) in
      subst (ReadsAs x) (ok-injective qr) (m, em, cc (got, known.2, is_link, same))

  input_of_branch-ReadsAs :
      (x : Ipld C F) (m : Fields C F) (o : Option (String × Ipld C F)) (i : Input C F (Ipld C F))
      → x ≡ map m
      → branch_entry m ≡ o
      → input_of_branch s (λ y. y) x o ≡ ok i
      → ReadsAs x i
  unfolding input_of_branch
  input_of_branch-ReadsAs x m none i em eb h =
      subst (ReadsAs x) (ok-injective h) (input_of_plain-ReadsAs x)
  input_of_branch-ReadsAs x m (some (b, v)) i em eb h = input_of_entry-ReadsAs x m b v i em eb h

  reads :
      (x : Ipld C F) (o : Option (Fields C F)) (i : Input C F (Ipld C F))
      → s.from_map x ≡ o
      → input_of_map s (λ y. y) x o ≡ ok i
      → ReadsAs x i
  unfolding input_of_map
  reads x none i e h = subst (ReadsAs x) (ok-injective h) (input_of_plain-ReadsAs x)
  reads x (some m) i e h =
      input_of_branch-ReadsAs x m (branch_entry m) i (law.map_only x m e) refl h

  -- Where serde reads as it documents, reading never invents: a value that is read with its
  -- payload kept as Ipld is the plain input, or the spelling of the result, or a map whose
  -- entry under the promise's branch is the promise's link.
  pub input_of_ipld-ReadsAs :
      (x : Ipld C F) (i : Input C F (Ipld C F)) → input_of_ipld s (λ y. y) x ≡ ok i → ReadsAs x i
  unfolding input_of_ipld
  input_of_ipld-ReadsAs x i h = reads x (s.from_map x) i refl h

  entry_error :
      {T : Type 0} (from : Ipld C F → T) (m : Fields C F) (b : String) (v : Ipld C F)
      (o : Error C F String)
      → branch_entry m ≡ some (b, v)
      → input_of_entry s from b v ≡ err o
      → o ≡ unknown
  unfolding input_of_entry
  entry_error from m b v o eb h =
      let (got, known) = branch_entry_found m b v eb in ground (arith, known.1)

  branch_error :
      {T : Type 0} (from : Ipld C F → T) (x : Ipld C F) (m : Fields C F)
      (b : Option (String × Ipld C F)) (o : Error C F String)
      → branch_entry m ≡ b
      → input_of_branch s from x b ≡ err o
      → o ≡ unknown
  unfolding input_of_branch
  branch_error from x m none o eb h = cc
  branch_error from x m (some (b, v)) o eb h = entry_error from m b v o eb h

  map_error :
      {T : Type 0} (from : Ipld C F → T) (x : Ipld C F) (m : Option (Fields C F))
      (o : Error C F String)
      → input_of_map s from x m ≡ err o
      → o ≡ unknown
  unfolding input_of_map
  map_error from x none o h = cc
  map_error from x (some m) o h = branch_error from x m (branch_entry m) o refl h

  -- Where serde reads as it documents, reading an input fails with no error but `Unknown`: the
  -- error about the link of a promise is lost in the conversion, and `InvalidDiscriminant`
  -- cannot occur.
  pub input_of_ipld_error :
      {T : Type 0} (from : Ipld C F → T) (x : Ipld C F) (o : Error C F String)
      → input_of_ipld s from x ≡ err o
      → o ≡ unknown
  unfolding input_of_ipld
  input_of_ipld_error from x o h = map_error from x (s.from_map x) o h
