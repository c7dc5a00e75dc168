-- ===== src/Client/Tests.antt =====
-- The theorems about the client at concrete answers.
use gps_connector.Prelude.{
  ◌≡◌, refl, codes, Text, List, [], ◌∷◌, Option, some, none, trim, is_space, arith,
}
use gps_connector.Promise.{fulfilled}
use gps_connector.Client.Calls.{get_positions}
use gps_connector.Client.Lines.{Written, IsWritten, written, rows_of, get_positions-written}

abbrev as_is : Text → Option Text
as_is line = some line

abbrev one_line : List (Written as_is)
one_line = record { line = codes "{}"; row = codes "{}" } ∷ []

braces_hold : IsWritten as_is (record { line = codes "{}"; row = codes "{}" })
unfolding trim is_space
braces_hold = record {
  one_line = (λ e. ground arith, (λ e. ground arith, tt));
  not_blank = refl;
  is_read = refl;
}

get_positions-written_example :
    get_positions as_is
      (fulfilled (record { status = 200; text = written as_is one_line; json = none }))
    ≡ fulfilled (rows_of as_is one_line)
get_positions-written_example = get_positions-written as_is 200 one_line refl (braces_hold, tt)
