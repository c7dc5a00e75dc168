-- ===== src/Overview/Import/View/Sent.antt =====
-- What the import dialog shows beside what it sends.
use gps_connector.Prelude.{
  ◌+◌, ◌==◌, ◌≡◌, refl, ap, arith, ◌||◌, List, [], ◌∷◌, none, some, length, is_none, inl, inr,
  Bool-cases,
}
use gps_connector.Metadata.{MetadataRow, ok, unknown, invalid}
use gps_connector.Overview.Import.{
  PatchInput, Dialog, rows_of, updatable, submit_inputs, handle_submit,
}
use gps_connector.Overview.Import.View.{
  badges, group, groups_of, imeis_of, unknown_imeis, invalid_imeis, update_label,
  import_metadata_dialog,
}

module _ {Num : Type 0} where
  length_imeis : (inputs : List (PatchInput Num)) → length (imeis_of inputs) ≡ length inputs
  length_imeis [] = refl
  length_imeis (input ∷ inputs) = omega (arith, length_imeis inputs)

  partition_lem :
      (rows : List (MetadataRow Num))
      → length (updatable rows) + length (unknown_imeis rows) + length (invalid_imeis rows)
        ≡ length rows
  unfolding updatable unknown_imeis invalid_imeis
  partition_lem [] = refl
  partition_lem (ok imei metadata ∷ rows) = omega (arith, partition_lem rows)
  partition_lem (unknown imei ∷ rows) = omega (arith, partition_lem rows)
  partition_lem (invalid imei reason ∷ rows) = omega (arith, partition_lem rows)

  -- Each row of the file is counted in one of the three groups.
  pub groups_total : (rows : List (MetadataRow Num)) → badges (groups_of rows) ≡ length rows
  unfolding groups_of group
  groups_total rows = omega (arith, partition_lem rows, length_imeis (updatable rows))

  button_lem :
      (inputs : List (PatchInput Num)) (d : Dialog Num)
      → (length inputs == 0 || d.submitting) ≡ is_none (submit_inputs inputs d).1
  unfolding submit_inputs
  button_lem [] d = refl
  button_lem (input ∷ inputs) d = elim (Bool-cases d.submitting) [
    | inl e ↦ ground arith
    | inr e ↦ ground arith
  ]

  sent_lem :
      (inputs sent : List (PatchInput Num)) (d : Dialog Num)
      → (submit_inputs inputs d).1 ≡ some sent
      → inputs ≡ sent
  unfolding submit_inputs
  sent_lem [] sent d e = cc
  sent_lem (input ∷ inputs) sent d e = elim (Bool-cases d.submitting) [
    | inl h ↦ let e : none ≡ some sent = rw h at e in cc
    | inr h ↦ cc
  ]

  -- The button is disabled just when pressing it would send nothing, and its label has the number of the
  -- devices that pressing it sends.
  pub handle_submit-shown :
      (d : Dialog Num)
      → ((import_metadata_dialog d).update_disabled ≡ is_none (handle_submit d).1)
        × ((sent : List (PatchInput Num))
            → (handle_submit d).1 ≡ some sent
            → (import_metadata_dialog d).update_label ≡ update_label (length sent))
  unfolding import_metadata_dialog handle_submit
  handle_submit-shown d = (
    button_lem (updatable (rows_of d.staged)) d,
    λ sent e. ap (λ s. update_label (length s)) (sent_lem (updatable (rows_of d.staged)) sent d e),
  )
