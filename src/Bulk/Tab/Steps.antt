-- ===== src/Bulk/Tab/Steps.antt =====
-- Every order of clicks, file reads and answers that the tab of bulk-imei-tab.tsx allows.
use gps_connector.Prelude.{
  ◌<◌, ◌≡◌, refl, Bool, true, false, Option, none, some, List, [], ◌∷◌, ◌++◌, ◌∙◌, Text, arith,
  length,
}
use gps_connector.Imei.{ParsedRow, parse_imeis}
use gps_connector.Bulk.{ClassifiedBulk, BulkSubmitResult, registered, failed, partial}
use gps_connector.Bulk.Tab.{
  Tab, initial, payload, handle_file, stage, file_read, remove_file, handle_review, confirm_payload,
  handle_confirm, confirm_settled, handle_cancel, dialog_open_change, confirm_disabled,
}

-- The tab, and the payloads of the calls of `onSubmit` that have not answered.
pub record Machine : Type 0 where
  pub tab : Tab
  pub in_flight : List ClassifiedBulk

abbrev pub start : Machine
start = record { tab = initial; in_flight = [] }

abbrev sent : List ClassifiedBulk → Option ClassifiedBulk → List ClassifiedBulk
sent flying none = flying
sent flying (some p) = p ∷ flying

-- A press of the dialog's button, which is shown while the dialog is open with a payload.
unfoldable pub press_confirm : List Text → Machine → Machine
unfolding handle_confirm
press_confirm tenant m =
    let (tab', p) = handle_confirm tenant m.tab in
    record { tab = tab'; in_flight = sent m.in_flight p }

-- The set of the tenant may be another one at each step.
pub data Step (m : Machine) (m' : Machine) : Type 0 where
  choose : m' ≡ record m { tab = handle_file m.tab } → Step m m'
  read :
      (name : Text) (text : Option Text)
      → m' ≡ record m { tab = file_read name text m.tab }
      → Step m m'
  remove : m.tab.review_open ≡ false → m' ≡ record m { tab = remove_file m.tab } → Step m m'
  review : (chosen : Bool) → m' ≡ record m { tab = handle_review chosen m.tab } → Step m m'
  confirm :
      (tenant : List Text) (p : ClassifiedBulk)
      → m.tab.review_open ≡ true
      → payload tenant m.tab ≡ some p
      → confirm_disabled m.tab.submitting p ≡ false
      → m' ≡ press_confirm tenant m
      → Step m m'
  answer :
      (before after : List ClassifiedBulk) (p : ClassifiedBulk) (result : BulkSubmitResult)
      → m.in_flight ≡ before ++ p ∷ after
      → m' ≡ record { tab = confirm_settled p result m.tab; in_flight = before ++ after }
      → Step m m'
  cancel : m' ≡ record m { tab = handle_cancel m.tab } → Step m m'
  close : (next : Bool) → m' ≡ record m { tab = dialog_open_change next m.tab } → Step m m'

pub data Reach (m : Machine) : Machine → Type 0 where
  here : Reach m m
  step : {n o : Machine} → Reach m n → Step n o → Reach m o

-- While the tab is submitting exactly one call is under way, its payload has an IMEI to register,
-- and the dialog is open; otherwise none is under way.
abbrev pub Accounts : List ClassifiedBulk → Tab → Type 0
Accounts [] tab = tab.submitting ≡ false
Accounts (p ∷ []) tab =
    (tab.submitting ≡ true) × (tab.review_open ≡ true) × (0 < length p.new_imeis)
Accounts (_ ∷ _ ∷ _) tab = ⊥

abbrev pub IsConsistent : Machine → Type 0
IsConsistent m = Accounts m.in_flight m.tab

-- A change that keeps `submitting`, and keeps the dialog open while it is set, keeps the account.
keeps :
    (flying : List ClassifiedBulk) (tab tab' : Tab)
    → tab'.submitting ≡ tab.submitting
    → (tab.submitting ≡ true → tab.review_open ≡ true → tab'.review_open ≡ true)
    → Accounts flying tab
    → Accounts flying tab'
keeps [] tab tab' e f h = e ∙ h
keeps (p ∷ []) tab tab' e f h = (e ∙ h.0, f h.0 h.1, h.2)
keeps (_ ∷ _ ∷ _) tab tab' e f h = h

stage_keeps :
    (name : Text) (rows : List ParsedRow) (tab : Tab)
    → ((stage name rows tab).submitting ≡ tab.submitting)
      × ((stage name rows tab).review_open ≡ tab.review_open)
unfolding stage
stage_keeps name [] tab = (refl, refl)
stage_keeps name (_ ∷ _) tab = (refl, refl)

sent-Accounts :
    (flying : List ClassifiedBulk) (tab : Tab) (p : ClassifiedBulk)
    → tab.review_open ≡ true
    → confirm_disabled tab.submitting p ≡ false
    → Accounts flying tab
    → Accounts (sent flying (confirm_payload (some p) tab).1) (confirm_payload (some p) tab).0
unfolding confirm_payload confirm_disabled
sent-Accounts [] tab p o c h = ground arith
sent-Accounts (q ∷ []) tab p o c h = ground arith
sent-Accounts (q ∷ r ∷ flying) tab p o c h = absurd h

settled_idle :
    (p : ClassifiedBulk) (result : BulkSubmitResult) (tab : Tab)
    → (confirm_settled p result tab).submitting ≡ false
unfolding confirm_settled
settled_idle p registered tab = refl
settled_idle p (failed _) tab = refl
settled_idle p (partial _ _) tab = refl

answered-Accounts :
    (before after flying : List ClassifiedBulk) (p : ClassifiedBulk) (tab tab' : Tab)
    → flying ≡ before ++ p ∷ after
    → tab'.submitting ≡ false
    → Accounts flying tab
    → Accounts (before ++ after) tab'
answered-Accounts [] [] flying p tab tab' e idle h = idle
answered-Accounts [] (q ∷ after) flying p tab tab' e idle h = absurd (rw e at h)
answered-Accounts (b ∷ []) after flying p tab tab' e idle h = absurd (rw e at h)
answered-Accounts (b ∷ c ∷ before) after flying p tab tab' e idle h = absurd (rw e at h)

Step-IsConsistent : {m m' : Machine} → Step m m' → IsConsistent m → IsConsistent m'
unfolding handle_file file_read remove_file handle_review press_confirm handle_cancel
    dialog_open_change payload
Step-IsConsistent {m} (choose e) v = rw e (keeps m.in_flight _ _ refl (λ _ o. o) v)
Step-IsConsistent {m} (read name none e) v = rw e (keeps m.in_flight _ _ refl (λ _ o. o) v)
Step-IsConsistent {m} (read name (some text) e) v =
    let (s, r) = stage_keeps name (parse_imeis text) m.tab in
    rw e (keeps m.in_flight _ _ s (λ _ o. r ∙ o) v)
Step-IsConsistent {m} (remove shut e) v = rw e (keeps m.in_flight _ _ refl (λ _ o. o) v)
Step-IsConsistent {m} (review true e) v = rw e (keeps m.in_flight _ _ refl (λ _ o. refl) v)
Step-IsConsistent {m} (review false e) v = rw e v
Step-IsConsistent {m} (confirm tenant p open_now e can e') v =
    rw (e', e) (sent-Accounts m.in_flight m.tab p open_now can v)
Step-IsConsistent {m} (answer before after p result e e') v =
    rw e' (answered-Accounts before after m.in_flight p m.tab _ e (settled_idle p result m.tab) v)
Step-IsConsistent {m} (cancel e) v = rw e (keeps m.in_flight _ _ (ground arith) (ground arith) v)
Step-IsConsistent {m} (close next e) v =
    rw e (keeps m.in_flight _ _ (ground arith) (ground arith) v)

-- In every state that clicks, file reads and answers can lead to, in any order: while the tab is
-- submitting exactly one call of `onSubmit` is under way, for a payload with at least one IMEI to
-- register, and the dialog is open; at all other times none is under way.
pub Reach-IsConsistent : {m : Machine} → Reach start m → IsConsistent m
Reach-IsConsistent here = refl
Reach-IsConsistent (step r st) = Step-IsConsistent st (Reach-IsConsistent r)
