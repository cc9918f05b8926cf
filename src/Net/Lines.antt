-- ===== src/Net/Lines.antt =====
-- orb8-agent/src/net.rs: what trimming and stripping leave of a line that ends in an address.
use mathlib.Core.List.{reverse, reverse_aux, reverse-append, reverse-reverse}
use orb.Prelude.{
  ℕ, zero, suc, ◌%◌, ◌≤◌, ◌<◌, ◌≡◌, ◌⊎◌, inl, inr, refl, ap, sym, ◌∙◌, false, none, [], ◌∷◌, ◌++◌,
  All, All-imp, All-append, arith, is_empty, length, ◌==◌,
}
use orb.Prelude.Decimal.{format_uint}
use orb.Prelude.Decimal.RoundTrip.{IsDigit, format_uint-IsDigit}
use orb.Prelude.Text.{
  Text, codes, trim, trim_start, trim_end, drop_while, is_whitespace, strip_prefix, strip_prefixes,
  trim_start_matches,
}
use orb.Net.{format_ipv4, octet}

-- The characters of an address: digits and dots.
abbrev pub IsPlain : ℕ → Type 0
IsPlain c = (46 ≤ c) × (c ≤ 57)

abbrev pub StartsPlain : Text → Type 0
StartsPlain [] = ⊥
StartsPlain (c ∷ s) = IsPlain c

plain-solid : (c : ℕ) → IsPlain c → is_whitespace c ≡ false
unfolding is_whitespace
plain-solid c h = ground arith

number-IsPlain : (n : ℕ) → All IsPlain (format_uint n)
number-IsPlain n =
    All-imp (format_uint n) (λ c (h : IsDigit c). omega arith) (format_uint-IsDigit n)

dotted : (n : ℕ) (s : Text) → All IsPlain s → All IsPlain (format_uint n ++ b'.' ∷ s)
dotted n s plain =
    All-append IsPlain (format_uint n) (b'.' ∷ s) (number-IsPlain n) (omega arith, plain)

pub format_ipv4-IsPlain : (ip : ℕ) → All IsPlain (format_ipv4 ip)
unfolding format_ipv4
format_ipv4-IsPlain ip =
    dotted (ip % 256) _
      (dotted (octet ip 8) _ (dotted (octet ip 16) _ (number-IsPlain (octet ip 24))))

pub plain-start : (s : Text) → All IsPlain s → is_empty s ≡ false → StartsPlain s
plain-start [] plain some_s = cc
plain-start (c ∷ s) plain some_s = plain.0

-- Text in front of which nothing is trimmed.
abbrev pub Firm : Text → Type 0
Firm [] = ⊥
Firm (c ∷ s) = is_whitespace c ≡ false

trim_start-Firm : (s : Text) → Firm s → trim_start s ≡ s
unfolding trim_start drop_while
trim_start-Firm [] firm = absurd firm
trim_start-Firm (c ∷ s) firm = rw firm

Firm-append : (s t : Text) → Firm s → Firm (s ++ t)
Firm-append [] t firm = absurd firm
Firm-append (c ∷ s) t firm = firm

abbrev pub spaces : ℕ → Text
spaces zero = []
spaces (suc n) = b' ' ∷ spaces n

trim_start-spaces : (d : ℕ) (s : Text) → Firm s → trim_start (spaces d ++ s) ≡ s
unfolding trim_start drop_while is_whitespace
trim_start-spaces zero s firm = trim_start-Firm s firm
trim_start-spaces (suc d) s firm = trim_start-spaces d s firm

-- A line with spaces in front, that ends firmly.
pub trim-line :
    (d : ℕ) (s t : Text) → Firm (s ++ t) → Firm (reverse t) → trim (spaces d ++ (s ++ t)) ≡ s ++ t
unfolding trim trim_end
trim-line d s t front back = rw (trim_start-spaces d (s ++ t) front) (
    ap (λ r. reverse (trim_start r)) (reverse-append s t)
    ∙ (ap reverse
          (trim_start-Firm (reverse t ++ reverse s) (Firm-append (reverse t) (reverse s) back))
        ∙ (ap reverse (sym (reverse-append s t)) ∙ reverse-reverse (s ++ t))))

reverse_aux-Firm : (s acc : Text) → All IsPlain s → Firm acc → Firm (reverse_aux s acc)
reverse_aux-Firm [] acc plain firm = firm
reverse_aux-Firm (c ∷ s) acc (h, plain) firm = reverse_aux-Firm s (c ∷ acc) plain (plain-solid c h)

pub reverse-Firm : (s : Text) → All IsPlain s → is_empty s ≡ false → Firm (reverse s)
reverse-Firm [] plain some_s = cc
reverse-Firm (c ∷ s) (h, plain) some_s = reverse_aux-Firm s (c ∷ []) plain (plain-solid c h)

is_empty-middle : (s : Text) (c : ℕ) (t : Text) → is_empty (s ++ c ∷ t) ≡ false
is_empty-middle [] c t = refl
is_empty-middle (d ∷ s) c t = refl

pub format_ipv4-some : (ip : ℕ) → is_empty (format_ipv4 ip) ≡ false
unfolding format_ipv4
format_ipv4-some ip = is_empty-middle (format_uint (ip % 256)) b'.' _

-- A prefix that an address does not begin with is not stripped, and one in front of it only once.
strip_prefix-plain :
    (s : Text) (c : ℕ) (p : Text)
    → StartsPlain s
    → (57 < c) ⊎ (c < 46)
    → strip_prefix s (c ∷ p) ≡ none
unfolding strip_prefix
strip_prefix-plain [] c p plain other = absurd plain
strip_prefix-plain (d ∷ s) c p plain (inl other) =
    let differs : (d == c) ≡ false = ground arith in rw differs refl
strip_prefix-plain (d ∷ s) c p plain (inr other) =
    let differs : (d == c) ≡ false = ground arith in rw differs refl

strip-plain :
    (fuel : ℕ) (s : Text) (c : ℕ) (p : Text)
    → StartsPlain s
    → (57 < c) ⊎ (c < 46)
    → strip_prefixes fuel s (c ∷ p) ≡ s
unfolding strip_prefixes
strip-plain zero s c p plain other = refl
strip-plain (suc fuel) s c p plain other =
    rw (strip_prefix-plain s c p plain other, strip_prefixes) refl

strip-once :
    (fuel : ℕ) (s : Text)
    → StartsPlain s
    → strip_prefixes (suc fuel) (codes "|-- " ++ s) (codes "|-- ") ≡ s
unfolding strip_prefixes strip_prefix
strip-once fuel s plain = strip-plain fuel s b'|' (codes "-- ") plain (inl (omega arith))

pub strip-bar :
    (s : Text) → StartsPlain s → trim_start_matches (codes "|-- " ++ s) (codes "|-- ") ≡ s
unfolding trim_start_matches
strip-bar s plain = strip-once (length (b'-' ∷ b'-' ∷ b' ' ∷ s)) s plain

pub strip-cross : (s : Text) → StartsPlain s → trim_start_matches s (codes "+-- ") ≡ s
unfolding trim_start_matches
strip-cross s plain = strip-plain (length s) s b'+' (codes "-- ") plain (inr (omega arith))
