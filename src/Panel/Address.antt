-- ===== src/Panel/Address.antt =====
-- Addresses: `fetchAddress` of frontend/lib/reverse-geocode.ts and `addressLines` of the panel.
use gps_connector.Prelude.{
  ◌≡◌, ◌∙◌, refl, ap, inl, inr, Text, codes, ◌&&◌, [], ◌∷◌, ◌++◌, Option, none, some, if◌then◌else◌,
  ◌==◌, arith, Bool-cases,
}
use gps_connector.Promise.{Settled, fulfilled, rejected, ◌>>=◌}
use gps_connector.Client.Calls.{Response, is_ok, decoded, refusal}

-- `properties` of the first feature.
pub record Properties : Type 0 where
  pub full_address : Option Text
  pub name : Option Text
  pub postcode : Option Text
  pub place : Option Text
  pub locality : Option Text

abbrev pub or_option {ℓ} : {A : Type ℓ} → Option A → Option A → Option A
or_option none b = b
or_option (some a) b = some a

abbrev line_of : Text → Text → Option Text → Text
line_of name city none = name ++ codes ", " ++ city
line_of name city (some []) = name ++ codes ", " ++ city
line_of name city (some (c ∷ s)) = name ++ codes ", " ++ (c ∷ s) ++ codes " " ++ city

abbrev city_of : Properties → Option Text
city_of p = or_option p.place p.locality

address_from : Properties → Option Text → Option Text → Option Text
address_from p (some (c ∷ s)) (some (d ∷ t)) = some (line_of (c ∷ s) (d ∷ t) p.postcode)
address_from p _ _ = or_option p.full_address p.name

-- What `fetchAddress` makes of the properties, if the answer has any.
unfoldable pub address_of : Option Properties → Option Text
unfolding address_from
address_of none = none
address_of (some p) = address_from p p.name (city_of p)

-- `fetchAddress` once the call has settled.
unfoldable pub fetch_address : Settled (Response (Option Properties)) → Settled (Option Text)
fetch_address call = do
  res ← call
  properties ←
      if is_ok res.status
      then decoded res.json
      else rejected (refusal (codes "Reverse geocoding") res)
  fulfilled (address_of properties)

abbrev with_first : Text → Text × Option Text → Text × Option Text
with_first [] lines = lines
with_first (c ∷ s) (line, rest) = (c ∷ s ++ line, rest)

-- `addressLines`
unfoldable pub address_lines : Text → Text × Option Text
address_lines [] = ([], none)
address_lines (c ∷ []) = (c ∷ [], none)
address_lines (c ∷ d ∷ s) =
    let later = with_first (c ∷ []) (address_lines (d ∷ s)) in
    if c == b',' && d == b' ' then (c ∷ [], some s) else later

abbrev pub joined : Text × Option Text → Text
joined (line, none) = line
joined (line, some rest) = line ++ b' ' ∷ rest

joined-with_first :
    (c : _) (lines : Text × Option Text) → joined (with_first (c ∷ []) lines) ≡ c ∷ joined lines
joined-with_first c (line, none) = refl
joined-with_first c (line, some rest) = refl

-- The two lines of an address with a space between them are the address, and one line is the whole of it.
pub address_lines-joined : (address : Text) → joined (address_lines address) ≡ address
unfolding address_lines
address_lines-joined [] = refl
address_lines-joined (c ∷ []) = refl
address_lines-joined (c ∷ d ∷ s) =
    let ih = address_lines-joined (d ∷ s) in
    elim (Bool-cases (c == b',' && d == b' ')) [
      | inl e ↦ rw e (ap (λ x. c ∷ x ∷ s) (ground arith))
      | inr e ↦ rw e (joined-with_first c (address_lines (d ∷ s)) ∙ ap (λ t. c ∷ t) ih)
    ]
