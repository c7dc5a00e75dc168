-- ===== src/Client/Lines.antt =====
-- Reading back the lines of positions: `getPositions` of frontend/lib/gps-client.ts.
use gps_connector.Prelude.{
  ℕ, ◌≡◌, ◌≢◌, refl, ap, ◌∙◌, sym, Text, true, false, not, List, [], ◌∷◌, ◌++◌, Option, none, some,
  ◌==◌, filter, All, arith, append_assoc, append-nil, trim,
}
use gps_connector.Promise.{fulfilled}
use gps_connector.Client.Calls.{is_ok, split_lines, is_blank, parse_lines, get_positions}

split_lines-line :
    (line l s : Text)
    → All (λ c. c ≢ 0x0a) l
    → split_lines line (l ++ 0x0a ∷ s) ≡ (line ++ l) ∷ split_lines [] s
unfolding split_lines
split_lines-line line [] s h = ap (λ r. r ∷ split_lines [] s) (sym (append-nil line))
split_lines-line line (c ∷ l) s (h, hs) =
    let other : (c == 0x0a) ≡ false = ground arith in
    rw other (
      split_lines-line (line ++ c ∷ []) l s hs
      ∙ ap (λ r. r ∷ split_lines [] s) (append_assoc line (c ∷ []) l))

no_line : filter (λ line. not (is_blank line)) (split_lines [] []) ≡ []
unfolding split_lines trim
no_line = refl

module _ {Row : Type 0} (parse : Text → Option Row) where
  -- A line that is read as a row.
  pub record Written : Type 0 where
    pub line : Text
    pub row : Row

  pub record IsWritten (w : Written) : Type 0 where
    pub one_line : All (λ c. c ≢ 0x0a) w.line
    pub not_blank : is_blank w.line ≡ false
    pub is_read : parse w.line ≡ some w.row

  -- Each line ends in a line feed.
  abbrev pub written : List Written → Text
  written [] = []
  written (w ∷ ws) = w.line ++ 0x0a ∷ written ws

  abbrev pub rows_of : List Written → List Row
  rows_of [] = []
  rows_of (w ∷ ws) = w.row ∷ rows_of ws

  parse_lines-split :
      (ws : List Written)
      → All IsWritten ws
      → parse_lines parse (filter (λ line. not (is_blank line)) (split_lines [] (written ws)))
        ≡ fulfilled (rows_of ws)
  unfolding parse_lines
  parse_lines-split [] h = rw no_line
  parse_lines-split (w ∷ ws) (h, hs) =
      rw (split_lines-line [] w.line (written ws) h.one_line, h.not_blank)
        (rw (h.is_read, parse_lines-split ws hs))

  -- An answer that is a success, and whose text has one row to a line, is read as those rows in order.
  pub get_positions-written :
      (status : ℕ) (ws : List Written)
      → is_ok status ≡ true
      → All IsWritten ws
      → get_positions parse (fulfilled (record { status = status; text = written ws; json = none }))
        ≡ fulfilled (rows_of ws)
  unfolding get_positions
  get_positions-written status ws ok h = rw ok (parse_lines-split ws h)
