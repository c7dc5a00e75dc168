-- ===== src/Overview/Import/Flight.antt =====
-- The calls of the import dialog that are under way.
use gps_connector.Prelude.{
  ℕ, ◌==◌, ◌≡◌, ◌≢◌, refl, inl, inr, Bool, true, false, List, [], ◌∷◌, ◌++◌, Option, none, some,
  length, filter, arith, Bool-cases, if_intro,
}
use gps_connector.Promise.{Settled, fulfilled, rejected}
use gps_connector.Client.{PatchResult}
use gps_connector.Overview.Import.{
  PatchInput, Dialog, submit_inputs, is_failed, refused, failures_text, imported, submit_settled,
}

module _ {Num : Type 0} where
  abbrev pub started :
      List (List (PatchInput Num)) → Option (List (PatchInput Num)) → List (List (PatchInput Num))
  started flying none = flying
  started flying (some inputs) = inputs ∷ flying

  -- While the dialog is submitting exactly one call is under way, otherwise none is.
  abbrev pub Accounts : List (List (PatchInput Num)) → Bool → Type 0
  Accounts [] submitting = submitting ≡ false
  Accounts (_ ∷ []) submitting = submitting ≡ true
  Accounts (_ ∷ _ ∷ _) submitting = ⊥

  pub press-Accounts :
      (flying : List (List (PatchInput Num))) (inputs : List (PatchInput Num)) (d : Dialog Num)
      → Accounts flying d.submitting
      → Accounts (started flying (submit_inputs inputs d).1) (submit_inputs inputs d).0.submitting
  unfolding submit_inputs
  press-Accounts flying [] d h = h
  press-Accounts [] (input ∷ inputs) d h = rw h refl
  press-Accounts (f ∷ []) (input ∷ inputs) d h = rw h refl
  press-Accounts (f ∷ g ∷ flying) (input ∷ inputs) d h = absurd h

  pub settled_idle :
      (sent : ℕ) (call : Settled (List PatchResult)) (d : Dialog Num)
      → (submit_settled sent call d).0.submitting ≡ false
  unfolding submit_settled
  settled_idle sent (rejected e) d = refl
  settled_idle sent (fulfilled results) d =
      let failed = length (filter is_failed results) in
      if_intro (λ (p : Dialog Num × Bool). p.0.submitting ≡ false) (failed == 0) (imported d, true)
        (refused (failures_text failed sent) d, false) (λ _. refl) (λ _. refl)

  pub settled-Accounts :
      (before after flying : List (List (PatchInput Num))) (sent : List (PatchInput Num))
      (was now : Bool)
      → flying ≡ before ++ sent ∷ after
      → now ≡ false
      → Accounts flying was
      → Accounts (before ++ after) now
  settled-Accounts [] [] flying sent was now e idle h = idle
  settled-Accounts [] (a ∷ after) flying sent was now e idle h = absurd (rw e at h)
  settled-Accounts (b ∷ []) after flying sent was now e idle h = absurd (rw e at h)
  settled-Accounts (b ∷ c ∷ before) after flying sent was now e idle h = absurd (rw e at h)

  pub inputs_sent :
      (inputs sent : List (PatchInput Num)) (d : Dialog Num)
      → (submit_inputs inputs d).1 ≡ some sent
      → (sent ≡ inputs)
        × (d.submitting ≡ false)
        × (sent ≢ [])
        × ((submit_inputs inputs d).0.submitting ≡ true)
  unfolding submit_inputs
  inputs_sent [] sent d h = cc
  inputs_sent (input ∷ inputs) sent d h = elim (Bool-cases d.submitting) [
    | inl e ↦ ground (arith, e, h)
    | inr e ↦ (ground arith, e, λ n. ground arith, ground arith)
  ]

  pub none_flying : (flying : List (List (PatchInput Num))) → Accounts flying false → flying ≡ []
  none_flying [] h = refl
  none_flying (f ∷ []) h = cc
  none_flying (f ∷ g ∷ flying) h = absurd h
