-- ===== src/Runtime/Worker/Resolved.antt =====
-- `resolve_cid`: what was resolved once is resolved again, to the same result.
use mathlib.Core.Path.{subst}
use homestar.Prelude.{◌≡◌, refl, sym, ap, ◌∙◌, Option, none, some, inl, inr, Option-cases}
use homestar.Prelude.Classes.{Eq}
use homestar.Result.{ok, err, Result-cases}
use homestar.Ipld.{Ipld}
use homestar.Core.InstructionResult.{InstructionResult, success}
use homestar.Runtime.Receipt.{Receipt, output_as_arg}
use homestar.Runtime.Resources.{get, Resource, cid}
use homestar.Runtime.Resources.Table.{get-insert_new_self}
use homestar.Runtime.Store.{find_instruction_by_cid, StoreError}
use homestar.Runtime.Worker.{Run, take_found, ask, look_in_db, look_in_resources, resolve_cid}

module _ {C F P U A B : Type 0} (eq : Eq C) (eq_rsc : Eq (Resource C U)) (from : Ipld C F → A)
    (of_bytes : B → A) where
  pub resolve_cid_of_link :
      (c : C) (answer : Option (Receipt C F P)) (s : Run C F P U A B) {r : InstructionResult A}
      → get eq c s.linkmap ≡ some r
      → resolve_cid eq eq_rsc from of_bytes c answer s ≡ (some r, s)
  unfolding resolve_cid
  resolve_cid_of_link c answer s h = rw (resolve_cid, h) refl

  pub to_resources :
      (c : C) (answer : Option (Receipt C F P)) (s : Run C F P U A B)
      → get eq c s.linkmap ≡ none
      → resolve_cid eq eq_rsc from of_bytes c answer s
        ≡ look_in_resources eq eq_rsc from of_bytes c answer s
  unfolding resolve_cid
  to_resources c answer s h = rw (resolve_cid, h) refl

  pub of_resource :
      (c : C) (answer : Option (Receipt C F P)) (s : Run C F P U A B) {b : B}
      → get eq_rsc (cid c) s.resources ≡ some b
      → look_in_resources eq eq_rsc from of_bytes c answer s ≡ (some (success (of_bytes b)), s)
  unfolding look_in_resources
  of_resource c answer s h = rw (look_in_resources, h) refl

  pub to_db :
      (c : C) (answer : Option (Receipt C F P)) (s : Run C F P U A B)
      → get eq_rsc (cid c) s.resources ≡ none
      → look_in_resources eq eq_rsc from of_bytes c answer s
        ≡ look_in_db eq eq_rsc from of_bytes c answer s
  unfolding look_in_resources
  to_db c answer s h = rw (look_in_resources, h) refl

  pub of_db :
      (c : C) (answer : Option (Receipt C F P)) (s : Run C F P U A B) {found : Receipt C F P}
      → find_instruction_by_cid eq c s.db ≡ ok found
      → look_in_db eq eq_rsc from of_bytes c answer s ≡ (some (output_as_arg from found), s)
  unfolding look_in_db
  of_db c answer s h = rw (look_in_db, h) refl

  pub to_network :
      (c : C) (answer : Option (Receipt C F P)) (s : Run C F P U A B) {f : StoreError}
      → find_instruction_by_cid eq c s.db ≡ err f
      → look_in_db eq eq_rsc from of_bytes c answer s ≡ ask eq eq_rsc from of_bytes c answer s
  unfolding look_in_db
  to_network c answer s h = rw (look_in_db, h) refl

  -- what the network answers is in the link map then
  of_network :
      (c : C) (answer : Option (Receipt C F P)) (s s' : Run C F P U A B) (r : InstructionResult A)
      → get eq c s.linkmap ≡ none
      → ask eq eq_rsc from of_bytes c answer s ≡ (some r, s')
      → get eq c s'.linkmap ≡ some r
  unfolding ask take_found
  of_network c none s s' r h k = cc
  of_network c (some found) s s' r h k =
      ap (λ p. get eq c p.1.linkmap) (sym k)
      ∙ get-insert_new_self eq c _ s.linkmap h
      ∙ ap (λ p. p.0) k

  -- A CID that was resolved is resolved again, in the state that this leaves, to the same
  -- result, with no change of the state and no request to the network, whatever the network
  -- would answer.
  pub resolve_cid_again :
      (c : C) (answer later : Option (Receipt C F P)) (s s' : Run C F P U A B)
      (r : InstructionResult A)
      → resolve_cid eq eq_rsc from of_bytes c answer s ≡ (some r, s')
      → resolve_cid eq eq_rsc from of_bytes c later s' ≡ (some r, s')
  resolve_cid_again c answer later s s' r h =
      let again = λ (p : (o : Option (InstructionResult A)) × Run C F P U A B).
        resolve_cid eq eq_rsc from of_bytes c later p.1 ≡ p in
      elim (Option-cases (get eq c s.linkmap)) [
        | inr (x, e) ↦
            subst again (sym (resolve_cid_of_link c answer s e) ∙ h)
              (resolve_cid_of_link c later s e)
        | inl e ↦ elim (Option-cases (get eq_rsc (cid c) s.resources)) [
          | inr (b, f) ↦
              subst again (sym (to_resources c answer s e ∙ of_resource c answer s f) ∙ h)
                (to_resources c later s e ∙ of_resource c later s f)
          | inl f ↦ elim (Result-cases (find_instruction_by_cid eq c s.db)) [
            | inl (found, g) ↦
                subst again
                  (sym (to_resources c answer s e ∙ to_db c answer s f ∙ of_db c answer s g) ∙ h)
                  (to_resources c later s e ∙ to_db c later s f ∙ of_db c later s g)
            | inr (_, g) ↦ resolve_cid_of_link c later s' (
                of_network c answer s s' r e (
                  sym (to_resources c answer s e ∙ to_db c answer s f ∙ to_network c answer s g)
                  ∙ h))
          ]
        ]
      ]
