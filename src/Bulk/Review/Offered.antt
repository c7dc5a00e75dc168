-- ===== src/Bulk/Review/Offered.antt =====
-- What the review of a file offers to register.
use gps_connector.Prelude.{
  ℕ, ◌+◌, ◌==◌, ◌≡◌, ◌≢◌, refl, ap, ◌∙◌, arith, Text, Bool, true, false, ◌&&◌, ◌||◌, not, List, [],
  ◌∷◌, map, some, length, has, has-cons, text_eq, text_eq_sound, Bool-cases, inl, inr, sym,
  text_eq_refl,
}
use gps_connector.Imei.{ParsedRow, parse_imeis, parse_rows, parse_row, tokens}
use gps_connector.Bulk.{InvalidRow, ClassifiedBulk, classify}
use gps_connector.Bulk.Classify.{classify_total, classify-parse_imeis, is_valid}
use gps_connector.Bulk.Tab.{Tab, file_read, payload, dialog_total, confirm_disabled}
use gps_connector.Bulk.Tab.Staged.{staged_tab, file_read-staged}
use gps_connector.Bulk.Review.{
  review_title, Group, group, groups_of, Review, review_of, bulk_confirm_dialog, bulk_imei_tab,
}

-- Whether some text of the list passes the test.
pub any : (Text → Bool) → List Text → Bool
any f [] = false
any f (t ∷ ts) = let rest = any f ts in f t || rest

any_intro :
    (f : Text → Bool) (t : Text) (ts : List Text) → has t ts ≡ true → f t ≡ true → any f ts ≡ true
unfolding has any
any_intro f t [] h k = cc
any_intro f t (s ∷ ss) h k = elim (Bool-cases (text_eq s t)) [
  | inl e ↦ rw (ap f (text_eq_sound s t e), k) refl
  | inr e ↦ ground (arith, has-cons t s ss, any_intro f t ss)
]

any_none :
    (f : Text → Bool) (ts : List Text) → ((t : Text) → (has t ts && f t) ≡ false) → any f ts ≡ false
unfolding has any
any_none f [] h = refl
any_none f (s ∷ ss) h =
    ground (arith, h s, text_eq_refl s, any_none f ss (λ t. ground (arith, h t)))

length-parse_rows : (seen raws : List Text) → length (parse_rows seen raws) ≡ length raws
unfolding parse_rows
length-parse_rows seen [] = refl
length-parse_rows seen (raw ∷ raws) = omega (arith, length-parse_rows (parse_row seen raw).1 raws)

-- The list is empty just if no text that is to be in it is there.
is_empty_lem :
    (f : Text → Bool) (ts fresh : List Text)
    → ((t : Text) → has t fresh ≡ (has t ts && f t))
    → (length fresh == 0) ≡ not (any f ts)
unfolding has
is_empty_lem f ts [] h = rw (any_none f ts (λ t. sym (h t))) refl
is_empty_lem f ts (t ∷ fresh) h =
    ground (arith, h t, has-cons t t fresh, text_eq_refl t, any_intro f t ts)

-- A valid IMEI that the tenant does not have yet.
abbrev pub is_offered : List Text → Text → Bool
is_offered tenant t = is_valid t && not (has t tenant)

and_assoc : (a b c : Bool) → (a && b && c) ≡ (a && (b && c))
and_assoc a b c = ground arith

offered_lem :
    (name text : Text) (tenant : List Text) (submitting : Bool)
    → let p = classify name (parse_imeis text) tenant in
      (dialog_total p ≡ length (tokens text))
      × (confirm_disabled submitting p
          ≡ (submitting || not (any (is_offered tenant) (tokens text))))
unfolding dialog_total confirm_disabled parse_imeis
offered_lem name text tenant submitting =
    let p = classify name (parse_imeis text) tenant in
    (
      classify_total name (parse_imeis text) tenant ∙ length-parse_rows [] (tokens text),
      ap (λ b. submitting || b)
          (is_empty_lem (is_offered tenant) (tokens text) p.new_imeis (λ t.
            (classify-parse_imeis name text tenant).0 t
            ∙ and_assoc (has t (tokens text)) (is_valid t) _)),
    )

abbrev pub badges : List Group → List ℕ
badges groups = map (λ (g : Group). g.badge) groups

abbrev pub sum : List ℕ → ℕ
sum [] = 0
sum (n ∷ ns) = n + sum ns

length_imeis :
    (rows : List InvalidRow) → length (map (λ (row : InvalidRow). row.imei) rows) ≡ length rows
length_imeis [] = refl
length_imeis (row ∷ rows) = omega (arith, length_imeis rows)

badges_lem : (p : ClassifiedBulk) → sum (badges (groups_of p)) ≡ dialog_total p
unfolding dialog_total group
badges_lem p = omega (arith, length_imeis p.invalid)

review_lem :
    (tenant : List Text) (name : Text) (rows : List ParsedRow) (tab : Tab)
    → (bulk_imei_tab tenant (staged_tab name rows tab)).1
      ≡ some (review_of tab.review_open tab.submitting tab.dialog_error (classify name rows tenant))
unfolding bulk_imei_tab bulk_confirm_dialog payload
review_lem tenant name rows tab = refl

-- After a file with at least one token is read, the dialog counts each token in one of its three groups,
-- its title has their number, and its button is enabled just if nothing is being sent and some
-- token is a valid IMEI that the tenant does not have.
pub file_read-review :
    (tenant : List Text) (name text : Text) (tab : Tab)
    → tokens text ≢ []
    → (r : Review) × ((bulk_imei_tab tenant (file_read name (some text) tab)).1 ≡ some r)
      × (sum (badges r.groups) ≡ length (tokens text))
      × (r.title ≡ review_title (length (tokens text)))
      × (r.confirm_disabled ≡ (tab.submitting || not (any (is_offered tenant) (tokens text))))
file_read-review tenant name text tab h =
    let p = classify name (parse_imeis text) tenant in
    let (total, disabled) = offered_lem name text tenant tab.submitting in
    (
      review_of tab.review_open tab.submitting tab.dialog_error p,
      ap (λ t. (bulk_imei_tab tenant t).1) (file_read-staged name text tab h)
          ∙ review_lem tenant name (parse_imeis text) tab,
      badges_lem p ∙ total,
      ap review_title total,
      disabled,
    )
