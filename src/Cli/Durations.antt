-- ===== src/Cli/Durations.antt =====
-- orb8-cli/src/lib.rs: the durations that `parse_duration` reads.
use mathlib.Core.List.{reverse, reverse_aux, reverse-append, reverse-reverse}
use orb.Prelude.{
  ℕ, zero, suc, ◌≢◌, ◌*◌, ◌≤◌, ◌<◌, ◌≡◌, refl, ap, ◌∙◌, true, false, none, some, [], ◌∷◌, ◌++◌,
  arith, All, All-imp, All-append, length, u64_mod, mul_u64_exact,
}
use orb.Prelude.Decimal.{format_uint}
use orb.Prelude.Decimal.RoundTrip.{IsDigit, format_uint-IsDigit, parse_uint-format_uint}
use orb.Prelude.Text.{
  Text, codes, ends_with, starts_with, strip_prefix, is_whitespace, trim, trim_start_matches,
  trim_end_matches, strip_prefixes,
}
use orb.Prelude.Trim.{IsSolid, digit-IsSolid, trim-IsSolid}
use orb.Cli.{parse_duration, parse_trimmed, scaled, u64_max}

reverse_aux-IsDigit :
    (s acc : Text) → All IsDigit s → All IsDigit acc → All IsDigit (reverse_aux s acc)
reverse_aux-IsDigit [] acc _ h = h
reverse_aux-IsDigit (c ∷ s) acc (hc, hs) h = reverse_aux-IsDigit s (c ∷ acc) hs (hc, h)

-- Digits do not begin with a letter.
strip_prefix-IsDigit :
    (s p : Text) (c : ℕ) → All IsDigit s → b'9' < c → strip_prefix s (c ∷ p) ≡ none
unfolding strip_prefix
strip_prefix-IsDigit [] p c h letter = refl
strip_prefix-IsDigit (d ∷ s) p c (hd, hs) letter = ground arith

module _ (n : ℕ) where
  back : Text
  back = reverse (format_uint n)

  back-IsDigit : All IsDigit back
  unfolding back
  back-IsDigit = reverse_aux-IsDigit (format_uint n) [] (format_uint-IsDigit n) tt

  no_letter : (p : Text) (c : ℕ) → b'9' < c → strip_prefix back (c ∷ p) ≡ none
  no_letter p c letter = strip_prefix-IsDigit back p c back-IsDigit letter

  -- Where nothing can be stripped nothing is.
  strip_prefixes-none :
      (fuel : ℕ) (s p : Text) → strip_prefix s p ≡ none → strip_prefixes fuel s p ≡ s
  unfolding strip_prefixes
  strip_prefixes-none zero s p e = refl
  strip_prefixes-none (suc fuel) s p e = rw (e, strip_prefixes)

  -- A unit of one letter, behind a number.
  module _ (u : ℕ) (letter : b'9' < u) where
    behind : reverse (format_uint n ++ u ∷ []) ≡ u ∷ back
    unfolding back
    behind = reverse-append (format_uint n) (u ∷ [])

    ends_with-unit : ends_with (format_uint n ++ u ∷ []) (u ∷ []) ≡ true
    unfolding ends_with starts_with strip_prefix
    ends_with-unit = rw behind (ground arith)

    ends_with-other : (v : ℕ) → u ≢ v → ends_with (format_uint n ++ u ∷ []) (v ∷ []) ≡ false
    unfolding ends_with starts_with strip_prefix
    ends_with-other v other = rw behind (ground arith)

    ends_with-ms : ends_with (format_uint n ++ u ∷ []) (codes "ms") ≡ false
    unfolding ends_with starts_with strip_prefix
    ends_with-ms = rw behind (ground (arith, no_letter [] b'm' (omega arith)))

    trim_end_matches-unit : trim_end_matches (format_uint n ++ u ∷ []) (u ∷ []) ≡ format_uint n
    unfolding trim_end_matches trim_start_matches strip_prefixes strip_prefix back
    trim_end_matches-unit =
        rw behind (ap reverse (strip_prefixes_once) ∙ reverse-reverse (format_uint n))
      where
        same : strip_prefix (u ∷ back) (u ∷ []) ≡ some back
        same = ground arith

        strip_prefixes_once : strip_prefixes (suc (length back)) (u ∷ back) (u ∷ []) ≡ back
        strip_prefixes_once =
            rw (same, strip_prefixes)
              (strip_prefixes-none (length back) back (u ∷ []) (no_letter [] u letter))

  behind_ms : reverse (format_uint n ++ codes "ms") ≡ b's' ∷ b'm' ∷ back
  unfolding back
  behind_ms = reverse-append (format_uint n) (codes "ms")

  ends_with-ms_unit : ends_with (format_uint n ++ codes "ms") (codes "ms") ≡ true
  unfolding ends_with starts_with strip_prefix
  ends_with-ms_unit = rw behind_ms

  trim_end_matches-ms : trim_end_matches (format_uint n ++ codes "ms") (codes "ms") ≡ format_uint n
  unfolding trim_end_matches trim_start_matches strip_prefixes strip_prefix back
  trim_end_matches-ms = rw behind_ms (
      ap reverse (
        strip_prefixes-none (suc (length back)) back (codes "sm")
          (no_letter (codes "m") b's' (omega arith)))
      ∙ reverse-reverse (format_uint n))

  scaled-format_uint :
      (unit : ℕ) → n ≤ u64_max → n * unit < u64_mod → scaled unit (format_uint n) ≡ some (n * unit)
  scaled-format_uint unit fits small =
      rw (parse_uint-format_uint u64_max n fits) (ap some (mul_u64_exact n unit small))

  trim-duration : (u : Text) → IsSolid u → trim (format_uint n ++ u) ≡ format_uint n ++ u
  trim-duration u solid = trim-IsSolid (format_uint n ++ u) (
      All-append (λ c. is_whitespace c ≡ false) (format_uint n) u
        (All-imp (format_uint n) digit-IsSolid (format_uint-IsDigit n)) solid)

-- A number in decimal notation with one of the four units behind it is read as that many units, in
-- milliseconds, if the number of hours fits 64 bits.
pub parse_duration_lem :
    (n : ℕ)
    → n * 3600000 < u64_mod
    → (parse_duration (format_uint n ++ codes "ms") ≡ some (n * 1))
      × (parse_duration (format_uint n ++ codes "s") ≡ some (n * 1000))
      × (parse_duration (format_uint n ++ codes "m") ≡ some (n * 60000))
      × (parse_duration (format_uint n ++ codes "h") ≡ some (n * 3600000))
unfolding parse_duration parse_trimmed is_whitespace
parse_duration_lem n small =
    let fits : n ≤ u64_max = omega arith in
    (
      rw
          (
            trim-duration n (codes "ms") (refl, (refl, tt)),
            ends_with-ms_unit n,
            trim_end_matches-ms n,
          )
          (scaled-format_uint n 1 fits (omega arith)),
      rw
          (
            trim-duration n (codes "s") (refl, tt),
            ends_with-ms n b's' (omega arith),
            ends_with-unit n b's' (omega arith),
            trim_end_matches-unit n b's' (omega arith),
          )
          (scaled-format_uint n 1000 fits (omega arith)),
      rw
          (
            trim-duration n (codes "m") (refl, tt),
            ends_with-ms n b'm' (omega arith),
            ends_with-other n b'm' (omega arith) b's' (omega arith),
            ends_with-unit n b'm' (omega arith),
            trim_end_matches-unit n b'm' (omega arith),
          )
          (scaled-format_uint n 60000 fits (omega arith)),
      rw
          (
            trim-duration n (codes "h") (refl, tt),
            ends_with-ms n b'h' (omega arith),
            ends_with-other n b'h' (omega arith) b's' (omega arith),
            ends_with-other n b'h' (omega arith) b'm' (omega arith),
            ends_with-unit n b'h' (omega arith),
            trim_end_matches-unit n b'h' (omega arith),
          )
          (scaled-format_uint n 3600000 fits (omega arith)),
    )
