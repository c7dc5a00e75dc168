-- ===== src/Dropzone.antt =====
-- The field that takes a CSV file: frontend/components/csv-dropzone.tsx. `lower` is `toLowerCase`; a file is
-- its name, its type and its content. What the browser shows of the dragging is not modelled.
use gps_connector.Prelude.{
  ◌≡◌, refl, ap, sym, ◌∙◌, Text, codes, Bool, true, false, ◌||◌, not, List, [], ◌∷◌, Option, none,
  some, if◌then◌else◌, text_eq, starts_with, reverse, filter, filter_map, Bool-cases, inl, inr,
  is_some,
}

pub record File : Type 0 where
  pub name : Text
  pub type : Text
  pub content : Text

-- `text.endsWith(suffix)`
unfoldable pub ends_with : Text → Text → Bool
ends_with suffix text = starts_with (reverse suffix) (reverse text)

unfoldable pub is_csv_file : (Text → Text) → File → Bool
is_csv_file lower f = text_eq f.type (codes "text/csv") || ends_with (codes ".csv") (lower f.name)

pub record Zone : Type 0 where
  pub is_dragging : Bool
  pub type_error : Option Text

abbrev pub idle_zone : Zone
idle_zone = record { is_dragging = false; type_error = none }

module _ (lower : Text → Text) where
  -- The state after a file, and the file that `onFile` is called with, if it is.
  unfoldable pub accept_file : File → Zone → Zone × Option File
  accept_file f z =
      if is_csv_file lower f
      then (record z { type_error = none }, some f)
      else (record z { type_error = some (codes "Only CSV files are supported") }, none)

  first_file : List File → Zone → Zone × Option File
  first_file [] z = (z, none)
  first_file (f ∷ _) z = accept_file f z

  unfoldable pub handle_file_change : List File → Zone → Zone × Option File
  unfolding first_file
  handle_file_change files z = first_file files z

  unfoldable pub handle_drop : List File → Zone → Zone × Option File
  unfolding first_file
  handle_drop files z = first_file files (record z { is_dragging = false })

unfoldable pub handle_drag_enter : Zone → Zone
handle_drag_enter z = record z { is_dragging = true }

-- Given whether the pointer is still inside.
unfoldable pub handle_drag_leave : Bool → Zone → Zone
handle_drag_leave inside z = if inside then z else record z { is_dragging = false }

-- `typeError ?? error`
unfoldable pub message : Option Text → Zone → Option Text
message error z = elim z.type_error [ none ↦ error | some e ↦ some e ]

-- What happens to the field: files are chosen or dropped, and something is dragged in or out.
pub data Event : Type 0 where
  chooses : List File → Event
  drops : List File → Event
  enters : Event
  leaves : Bool → Event

-- The first file of an event.
abbrev pub file_of : Event → Option File
file_of (chooses (f ∷ _)) = some f
file_of (drops (f ∷ _)) = some f
file_of _ = none

module _ (lower : Text → Text) where
  unfoldable pub handle : Event → Zone → Zone × Option File
  handle (chooses files) z = handle_file_change lower files z
  handle (drops files) z = handle_drop lower files z
  handle enters z = (handle_drag_enter z, none)
  handle (leaves inside) z = (handle_drag_leave inside z, none)

  abbrev with_file : Option File → List File → List File
  with_file none files = files
  with_file (some f) files = f ∷ files

  -- The state after the events, oldest first, and the files that `onFile` was called with.
  unfoldable pub run : List Event → Zone → Zone × List File
  run [] z = (z, [])
  run (e ∷ es) z =
      let (after, sent) = handle e z in
      let (last, files) = run es after in (last, with_file sent files)

  -- Whether the field has an error after these files, given whether it had one before.
  abbrev pub error_after : Bool → List File → Bool
  error_after before [] = before
  error_after before (f ∷ fs) = error_after (not (is_csv_file lower f)) fs

  handle_lem :
      (e : Event) (z : Zone)
      → (is_some (handle e z).0.type_error
          ≡ error_after (is_some z.type_error) (with_file (file_of e) []))
        × ((fs : List File)
            → with_file (handle e z).1 (filter (is_csv_file lower) fs)
              ≡ filter (is_csv_file lower) (with_file (file_of e) fs))
  unfolding handle handle_file_change handle_drop handle_drag_enter handle_drag_leave accept_file
  handle_lem (chooses []) z = (refl, λ fs. refl)
  handle_lem (drops []) z = (refl, λ fs. refl)
  handle_lem enters z = (refl, λ fs. refl)
  handle_lem (leaves true) z = (refl, λ fs. refl)
  handle_lem (leaves false) z = (refl, λ fs. refl)
  handle_lem (chooses (f ∷ _)) z = elim (Bool-cases (is_csv_file lower f)) [
    | inl e ↦ rw e (refl, λ fs. refl)
    | inr e ↦ rw e (refl, λ fs. refl)
  ]
  handle_lem (drops (f ∷ _)) z = elim (Bool-cases (is_csv_file lower f)) [
    | inl e ↦ rw e (refl, λ fs. refl)
    | inr e ↦ rw e (refl, λ fs. refl)
  ]

  file_of_cons :
      (e : Event) (es : List Event)
      → filter_map file_of (e ∷ es) ≡ with_file (file_of e) (filter_map file_of es)
  file_of_cons (chooses []) es = refl
  file_of_cons (chooses (f ∷ _)) es = refl
  file_of_cons (drops []) es = refl
  file_of_cons (drops (f ∷ _)) es = refl
  file_of_cons enters es = refl
  file_of_cons (leaves _) es = refl

  error_after_one :
      (o : Option File) (before : Bool) (fs : List File)
      → error_after (error_after before (with_file o [])) fs ≡ error_after before (with_file o fs)
  error_after_one none before fs = refl
  error_after_one (some f) before fs = refl

  -- Over any sequence of events, the page is given exactly those of the first files that are CSV files, in
  -- their order, and the field has its own error just if the last one was none.
  pub run-filter :
      (es : List Event) (z : Zone)
      → ((run es z).1 ≡ filter (is_csv_file lower) (filter_map file_of es))
        × (is_some (run es z).0.type_error
            ≡ error_after (is_some z.type_error) (filter_map file_of es))
  unfolding run
  run-filter [] z = (refl, refl)
  run-filter (e ∷ es) z =
      let (error, sent) = handle_lem e z in
      let (files, later) = run-filter es (handle e z).0 in
      let taken = filter_map file_of es in
      (
        ap (with_file (handle e z).1) files
            ∙ sent taken
            ∙ ap (filter (is_csv_file lower)) (sym (file_of_cons e es)),
        later
            ∙ ap (λ b. error_after b taken) error
            ∙ error_after_one (file_of e) (is_some z.type_error) taken
            ∙ ap (error_after (is_some z.type_error)) (sym (file_of_cons e es)),
      )
