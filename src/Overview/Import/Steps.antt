-- ===== src/Overview/Import/Steps.antt =====
-- The runs of the import dialog, for one set of known IMEIs.
use gps_connector.Prelude.{
  ℕ, ℤ, ◌==◌, ◌≡◌, ◌≢◌, refl, ap, ◌∙◌, Text, codes, Bool, true, false, List, [], ◌∷◌, ◌++◌, subst,
  sym, map, Option, none, some, length, filter, if_intro, All, Distinct,
}
use gps_connector.Promise.{Settled, fulfilled, rejected}
use gps_connector.Client.{PatchResult}
use gps_connector.Metadata.{MetadataRow, ParsedMetadata, ok, unknown, invalid, parse_metadata_csv}
use gps_connector.Metadata.Rows.{ok_imeis, IsKnown, parse_metadata_csv-IsKnown}
use gps_connector.Overview.Import.Flight.{
  started, Accounts, press-Accounts, settled_idle, settled-Accounts, inputs_sent, none_flying,
}
use gps_connector.Overview.Import.{
  PatchInput, Dialog, initial, rows_of, updatable, reset, handle_open_change, opened, handle_file,
  file_read, stage_rows, lacks_imei, with_read_error, submit_inputs, submitting_now, handle_submit,
  is_failed, refused, failures_text, imported, submit_settled,
}

module _ {Num : Type 0} where
  abbrev pub input_imei : PatchInput Num → Text
  input_imei input = input.imei

  updatable-imeis :
      (rows : List (MetadataRow Num)) → map input_imei (updatable rows) ≡ ok_imeis rows
  unfolding updatable
  updatable-imeis [] = refl
  updatable-imeis (ok imei metadata ∷ rows) = ap (λ imeis. imei ∷ imeis) (updatable-imeis rows)
  updatable-imeis (unknown imei ∷ rows) = updatable-imeis rows
  updatable-imeis (invalid imei reason ∷ rows) = updatable-imeis rows

module _ {Num : Type 0} (number : Text → Option Num) (date : Text → Option ℤ) (lower : Text → Text)
    (known : List Text) where
  -- What happens to the dialog beside its button and the settling of a call.
  pub data Event : Type 0 where
    opens : Bool → Event
    chosen : Event
    read : (name : Text) (text : Option Text) → Event
    resets : Event

  abbrev parsed : Option Text → Option (ParsedMetadata Num)
  parsed none = none
  parsed (some text) = some (parse_metadata_csv number date lower text known)

  unfoldable pub handle : Event → Dialog Num → Dialog Num
  handle (opens next) d = handle_open_change next d
  handle chosen d = handle_file d
  handle (read name text) d = file_read name (parsed text) d
  handle resets d = reset d

  -- The dialog, and what the calls of `patchDeviceMetadataBulk` sent that have not settled.
  pub record Machine : Type 0 where
    pub dialog : Dialog Num
    pub in_flight : List (List (PatchInput Num))

  abbrev pub first : Machine
  first = record { dialog = initial; in_flight = [] }

  abbrev pub with_dialog : Dialog Num → Machine → Machine
  with_dialog d m = record m { dialog = d }

  -- A press of the button.
  unfoldable pub press_update : Machine → Machine
  press_update m =
      let (d, inputs) = handle_submit m.dialog in
      record { dialog = d; in_flight = started m.in_flight inputs }

  -- Any call in flight may settle, in any order.
  pub data Reach : Machine → Type 0 where
    start : Reach first
    step : (m : Machine) (e : Event) → Reach m → Reach (with_dialog (handle e m.dialog) m)
    press : (m : Machine) → Reach m → Reach (press_update m)
    settle :
        (m : Machine) (before after : List (List (PatchInput Num))) (sent : List (PatchInput Num))
        (call : Settled (List PatchResult))
        → Reach m
        → m.in_flight ≡ before ++ sent ∷ after
        → Reach (record {
          dialog = (submit_settled (length sent) call m.dialog).0;
          in_flight = before ++ after;
        })

  -- The rows that are to be updated are known devices, each once.
  abbrev AreKnown : List Text → Type 0
  AreKnown imeis = All (IsKnown known) imeis × Distinct imeis

  abbrev IsStaged : Dialog Num → Type 0
  IsStaged d = AreKnown (ok_imeis (rows_of d.staged))

  read-IsStaged :
      (name : Text) (p : ParsedMetadata Num) (d : Dialog Num)
      → AreKnown (ok_imeis p.rows)
      → IsStaged d
      → IsStaged (file_read name (some p) d)
  unfolding file_read
  read-IsStaged name p d k h =
      if_intro IsStaged (lacks_imei p.columns)
        (with_read_error (codes "The file has no imei column") d) (stage_rows name p.rows d)
        (λ _. h) (λ _. by_rows p.rows k)
    where
      by_rows :
          (rows : List (MetadataRow Num))
          → AreKnown (ok_imeis rows)
          → IsStaged (stage_rows name rows d)
      by_rows [] k = h
      by_rows (row ∷ rows) k = k

  submit-IsStaged :
      (inputs : List (PatchInput Num)) (d : Dialog Num)
      → IsStaged d
      → IsStaged (submit_inputs inputs d).0
  unfolding submit_inputs
  submit-IsStaged [] d h = h
  submit-IsStaged (input ∷ inputs) d h =
      if_intro (λ (p : Dialog Num × Option (List (PatchInput Num))). IsStaged p.0) d.submitting
        (d, none) (submitting_now d, some (input ∷ inputs)) (λ _. h) (λ _. h)

  settled-IsStaged :
      (sent : ℕ) (call : Settled (List PatchResult)) (d : Dialog Num)
      → IsStaged d
      → IsStaged (submit_settled sent call d).0
  unfolding submit_settled reset
  settled-IsStaged sent (rejected e) d h = h
  settled-IsStaged sent (fulfilled results) d h =
      let failed = length (filter is_failed results) in
      if_intro (λ (p : Dialog Num × Bool). IsStaged p.0) (failed == 0) (imported d, true)
        (refused (failures_text failed sent) d, false) (λ _. (tt, tt)) (λ _. h)

  open-IsStaged : (next : Bool) (d : Dialog Num) → IsStaged d → IsStaged (opened next d)
  unfolding reset
  open-IsStaged true d h = h
  open-IsStaged false d h = (tt, tt)

  handle-IsStaged : (e : Event) (d : Dialog Num) → IsStaged d → IsStaged (handle e d)
  unfolding handle handle_open_change handle_file reset file_read
  handle-IsStaged (opens next) d h =
      if_intro IsStaged d.submitting d (opened next d) (λ _. h) (λ _. open-IsStaged next d h)
  handle-IsStaged chosen d h = h
  handle-IsStaged (read name none) d h = h
  handle-IsStaged (read name (some text)) d h =
      read-IsStaged name (parse_metadata_csv number date lower text known) d
        (parse_metadata_csv-IsKnown number date known lower text) h
  handle-IsStaged resets d h = (tt, tt)

  handle_submitting : (e : Event) (d : Dialog Num) → (handle e d).submitting ≡ d.submitting
  unfolding handle handle_open_change handle_file reset file_read
  handle_submitting (opens next) d =
      if_intro (λ (f : Dialog Num). f.submitting ≡ d.submitting) d.submitting d (opened next d)
        (λ _. refl) (λ _. by next)
    where
      by : (next : Bool) → (opened next d).submitting ≡ d.submitting
      by true = refl
      by false = refl
  handle_submitting chosen d = refl
  handle_submitting (read name none) d = refl
  handle_submitting (read name (some text)) d =
      let p = parse_metadata_csv number date lower text known in
      if_intro (λ (f : Dialog Num). f.submitting ≡ d.submitting) (lacks_imei p.columns)
        (with_read_error (codes "The file has no imei column") d) (stage_rows name p.rows d)
        (λ _. refl) (λ _. by p.rows)
    where
      by : (rows : List (MetadataRow Num)) → (stage_rows name rows d).submitting ≡ d.submitting
      by [] = refl
      by (_ ∷ _) = refl
  handle_submitting resets d = refl

  record IsSound (m : Machine) : Type 0 where
    pub staged : IsStaged m.dialog
    pub accounts : Accounts m.in_flight m.dialog.submitting

  Reach-IsSound : (m : Machine) → Reach m → IsSound m
  unfolding press_update handle_submit
  Reach-IsSound _ start = record { staged = (tt, tt); accounts = refl }
  Reach-IsSound _ (step m e r) =
      let s = Reach-IsSound m r in
      record {
        staged = handle-IsStaged e m.dialog s.staged;
        accounts = subst (Accounts m.in_flight) (sym (handle_submitting e m.dialog)) s.accounts;
      }
  Reach-IsSound _ (press m r) =
      let s = Reach-IsSound m r in
      let inputs = updatable (rows_of m.dialog.staged) in
      record {
        staged = submit-IsStaged inputs m.dialog s.staged;
        accounts = press-Accounts m.in_flight inputs m.dialog s.accounts;
      }
  Reach-IsSound _ (settle m before after sent call r e) =
      let s = Reach-IsSound m r in
      record {
        staged = settled-IsStaged (length sent) call m.dialog s.staged;
        accounts =
            settled-Accounts before after m.in_flight sent m.dialog.submitting _ e
              (settled_idle (length sent) call m.dialog) s.accounts;
      }

  -- In every state that any order of clicks, file reads and settled calls can lead to, the rows that a press of
  -- the button sends are one or more, have IMEIs of 15 digits that are registered and different from
  -- one another, and are sent only if no earlier call is under way; then the dialog does not close.
  pub Reach-sends :
      (m : Machine) (sent : List (PatchInput Num))
      → Reach m
      → (handle_submit m.dialog).1 ≡ some sent
      → (sent ≢ [])
        × All (IsKnown known) (map input_imei sent)
        × Distinct (map input_imei sent)
        × (m.in_flight ≡ [])
        × ((press_update m).in_flight ≡ sent ∷ [])
        × ((next : Bool)
            → handle_open_change next (press_update m).dialog ≡ (press_update m).dialog)
  unfolding press_update handle_submit handle_open_change
  Reach-sends m sent r h =
      let rows = rows_of m.dialog.staged in
      let (same, idle, more, busy) = inputs_sent (updatable rows) sent m.dialog h in
      let imeis = ap (map input_imei) same ∙ updatable-imeis rows in
      let s = Reach-IsSound m r in
      let free = none_flying m.in_flight (subst (Accounts m.in_flight) idle s.accounts) in
      (
        more,
        rw imeis s.staged.0,
        rw imeis s.staged.1,
        free,
        rw (h, free) refl,
        λ next. rw busy refl,
      )
