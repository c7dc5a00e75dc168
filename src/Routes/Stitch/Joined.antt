-- ===== src/Routes/Stitch/Joined.antt =====
-- Stitching loses no point, keeps the order, and leaves only gaps that are not small.
use gps_connector.Prelude.{
  ◌≤◌, ◌≡◌, refl, sym, ap, ◌∙◌, inl, inr, false, Option, some, List, [], ◌∷◌, ◌++◌, if◌then◌else◌,
  All, Bool-cases, arith, append_assoc, append-nil, length, length-append,
}
use gps_connector.Geo.{Floats, haversine_meters}
use gps_connector.Routes.Stitch.{
  Position, last?, first?, point, gap_meters, is_small, onto, stitch_push, stitch_from,
  stitch_segments,
}

module _ {A : Type 0} where
  abbrev pub flat : List (List A) → List A
  flat [] = []
  flat (s ∷ ss) = s ++ flat ss

  -- A line of two points at least.
  abbrev pub IsLine : List A → Type 0
  IsLine s = 2 ≤ length s

  last?-line : (s : List A) → IsLine s → (p : A) × (last? s ≡ some p)
  last?-line [] h = absurd (omega arith)
  last?-line (x ∷ []) h = absurd (omega arith)
  last?-line (x ∷ y ∷ []) h = (y, refl)
  last?-line (x ∷ y ∷ z ∷ s) h = last?-line (y ∷ z ∷ s) (omega arith)

  first?-line : (s : List A) → IsLine s → (p : A) × (first? s ≡ some p)
  first?-line [] h = absurd (omega arith)
  first?-line (x ∷ s) h = (x, refl)

  first?-append : (s t : List A) → IsLine s → first? (s ++ t) ≡ first? s
  first?-append [] t h = absurd (omega arith)
  first?-append (x ∷ s) t h = refl

  flat-snoc : (ss : List (List A)) (s : List A) → flat (ss ++ s ∷ []) ≡ flat ss ++ s
  flat-snoc [] s = append-nil s
  flat-snoc (t ∷ ss) s = ap (λ r. t ++ r) (flat-snoc ss s) ∙ sym (append_assoc t (flat ss) s)

module _ (fl : Floats) where
  open fl use {Num}

  gap-lines :
      (s t : List (Position Num)) → IsLine s → IsLine t → (g : Num) × (gap_meters fl s t ≡ some g)
  unfolding gap_meters
  gap-lines s t hs ht =
      let (p, e) = last?-line s hs in
      let (q, f) = first?-line t ht in (haversine_meters fl (point fl p) (point fl q), rw (e, f))

  -- The gap from one segment to the next is not small.
  abbrev pub IsApart : List (Position Num) → List (Position Num) → Type 0
  IsApart s t = (g : Num) × (gap_meters fl s t ≡ some g) × (is_small fl g ≡ false)

  abbrev pub Apart : List (List (Position Num)) → Type 0
  Apart [] = Unit
  Apart (s ∷ []) = Unit
  Apart (s ∷ t ∷ ss) = IsApart s t × Apart (t ∷ ss)

  -- What a push onto segments that begin with `s` gives: the same points and one segment more, all of
  -- them lines, none close to the next; the first segment starts where it did.
  record Pushed (s : List (Position Num)) (ss : List (List (Position Num)))
      (segment : List (Position Num)) : Type 0 where
    head : List (Position Num)
    rest : List (List (Position Num))
    result : stitch_push fl (s ∷ ss) segment ≡ some (head ∷ rest)
    same_points : flat (head ∷ rest) ≡ flat (s ∷ ss) ++ segment
    lines : All IsLine (head ∷ rest)
    apart : Apart (head ∷ rest)
    same_start : first? head ≡ first? s

  IsApart-first : (s t u : List (Position Num)) → first? u ≡ first? t → IsApart s t → IsApart s u
  unfolding gap_meters
  IsApart-first s t u e a = (a.0, rw e a.1, a.2)

  joined-result :
      (previous segment : List (Position Num)) (g : Num)
      → gap_meters fl previous segment ≡ some g
      → stitch_push fl (previous ∷ []) segment
        ≡ some (if is_small fl g then (previous ++ segment) ∷ [] else previous ∷ segment ∷ [])
  unfolding stitch_push
  joined-result previous segment g e = rw e

  append-IsLine : (s t : List (Position Num)) → IsLine s → IsLine (s ++ t)
  append-IsLine s t h = omega (arith, length-append s t)

  push_last : (s segment : List (Position Num)) → IsLine s → IsLine segment → Pushed s [] segment
  push_last s segment hs ht =
      let (g, e) = gap-lines s segment hs ht in
      elim (Bool-cases (is_small fl g)) [
        | inl small ↦ record {
          head = s ++ segment;
          rest = [];
          result = rw (joined-result s segment g e, small);
          same_points = append-nil (s ++ segment) ∙ ap (λ r. r ++ segment) (sym (append-nil s));
          lines = (append-IsLine s segment hs, tt);
          apart = tt;
          same_start = first?-append s segment hs;
        }
        | inr large ↦ record {
          head = s;
          rest = segment ∷ [];
          result = rw (joined-result s segment g e, large);
          same_points =
              ap (λ r. s ++ r) (append-nil segment) ∙ ap (λ r. r ++ segment) (sym (append-nil s));
          lines = (hs, (ht, tt));
          apart = ((g, e, large), tt);
          same_start = refl;
        }
      ]

  onto-result :
      (s t : List (Position Num)) (ss : List (List (Position Num))) (segment : List (Position Num))
      → stitch_push fl (s ∷ t ∷ ss) segment ≡ onto fl s (stitch_push fl (t ∷ ss) segment)
  unfolding stitch_push
  onto-result s t ss segment = refl

  push-Pushed :
      (s : List (Position Num)) (ss : List (List (Position Num))) (segment : List (Position Num))
      → All IsLine (s ∷ ss)
      → Apart (s ∷ ss)
      → IsLine segment
      → Pushed s ss segment
  push-Pushed s [] segment h a k = push_last s segment h.0 k
  push-Pushed s (t ∷ ss) segment h a k =
      let ih = push-Pushed t ss segment h.1 a.1 k in
      record {
        head = s;
        rest = ih.head ∷ ih.rest;
        result = onto-result s t ss segment ∙ ap (onto fl s) ih.result;
        same_points =
            ap (λ r. s ++ r) ih.same_points ∙ sym (append_assoc s (flat (t ∷ ss)) segment);
        lines = (h.0, ih.lines);
        apart = (IsApart-first s t ih.head ih.same_start a.0, ih.apart);
        same_start = refl;
      }

  -- The stitched segments and what is to be known of them.
  pub record Stitched (points : List (Position Num)) (found : Option (List (List (Position Num))))
      : Type 0 where
    pub stitched : List (List (Position Num))
    pub result : found ≡ some stitched
    pub same_points : flat stitched ≡ points
    pub lines : All IsLine stitched
    pub apart : Apart stitched

  first_push : (segment : List (Position Num)) → stitch_push fl [] segment ≡ some (segment ∷ [])
  unfolding stitch_push
  first_push segment = refl

  from-Stitched :
      (stitched segments : List (List (Position Num)))
      → All IsLine stitched
      → Apart stitched
      → All IsLine segments
      → Stitched (flat stitched ++ flat segments) (stitch_from fl (some stitched) segments)
  unfolding stitch_from
  from-Stitched stitched [] h a k = record {
    stitched = stitched;
    result = refl;
    same_points = sym (append-nil (flat stitched));
    lines = h;
    apart = a;
  }
  from-Stitched [] (segment ∷ segments) h a (k, ks) =
      let ih = from-Stitched (segment ∷ []) segments (k, tt) tt ks in
      record {
        stitched = ih.stitched;
        result = rw (first_push segment) ih.result;
        same_points = ih.same_points ∙ append_assoc segment [] (flat segments);
        lines = ih.lines;
        apart = ih.apart;
      }
  from-Stitched (s ∷ ss) (segment ∷ segments) h a (k, ks) =
      let p = push-Pushed s ss segment h a k in
      let ih = from-Stitched (p.head ∷ p.rest) segments p.lines p.apart ks in
      record {
        stitched = ih.stitched;
        result = rw p.result ih.result;
        same_points =
            ih.same_points
            ∙ ap (λ r. r ++ flat segments) p.same_points
            ∙ append_assoc (flat (s ∷ ss)) segment (flat segments);
        lines = ih.lines;
        apart = ih.apart;
      }

  -- Stitching segments of two points at least never throws, keeps all points in their order, gives
  -- segments of two points at least again, and leaves no two neighbours whose gap is small.
  pub stitch_segments-Stitched :
      (segments : List (List (Position Num)))
      → All IsLine segments
      → Stitched (flat segments) (stitch_segments fl segments)
  unfolding stitch_segments
  stitch_segments-Stitched segments h = from-Stitched [] segments tt tt h
