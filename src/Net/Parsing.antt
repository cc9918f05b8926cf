-- ===== src/Net/Parsing.antt =====
-- orb8-agent/src/net.rs: what `parse_ipv4` accepts.
use orb.Prelude.{
  ℕ, ◌+◌, ◌-◌, ◌*◌, ◌^◌, ◌≤◌, ◌<◌, ◌≡◌, refl, List, [], ◌∷◌, ◌++◌, none, some, arith, All,
  Option-cases, inl, inr, ap,
}
use orb.Prelude.Text.{Text, split, Lacks, split-append, split-append_any}
use orb.Prelude.Decimal.{parse_digits, parse_uint}
use orb.Net.{octets, ipv4_of_parts, parse_ipv4}

parse_digits-le : (max : ℕ) (s : Text) (n r : ℕ) → n ≤ max → parse_digits max s n ≡ some r → r ≤ max
unfolding parse_digits
parse_digits-le max [] n r h e = ground arith
parse_digits-le max (c ∷ s) n r h e = ground (arith, parse_digits-le max s (n * 10 + (c - b'0')) r)

pub parse_uint-le : (max : ℕ) (s : Text) (r : ℕ) → parse_uint max s ≡ some r → r ≤ max
unfolding parse_uint
parse_uint-le max [] r e = cc
parse_uint-le max (c ∷ []) r e = ground (arith, parse_digits-le max (c ∷ []) 0 r)
parse_uint-le max (c ∷ d ∷ s) r e =
    ground (arith, parse_digits-le max (d ∷ s) 0 r, parse_digits-le max (c ∷ d ∷ s) 0 r)

octets-All-le : (ps : List Text) → All (λ n. n ≤ 255) (octets ps)
unfolding octets
octets-All-le [] = tt
octets-All-le (p ∷ ps) = elim (Option-cases (parse_uint 255 p)) [
  | inl e ↦ rw (e, octets) (octets-All-le ps)
  | inr (n, e) ↦ rw (e, octets) (parse_uint-le 255 p n e, octets-All-le ps)
]

ipv4_of_parts-lt :
    (ns : List ℕ) (ip : ℕ) → All (λ n. n ≤ 255) ns → ipv4_of_parts ns ≡ some ip → ip < 2 ^ 32
unfolding ipv4_of_parts
ipv4_of_parts-lt [] ip h e = cc
ipv4_of_parts-lt (a ∷ []) ip h e = cc
ipv4_of_parts-lt (a ∷ b ∷ []) ip h e = cc
ipv4_of_parts-lt (a ∷ b ∷ c ∷ []) ip h e = cc
ipv4_of_parts-lt (a ∷ b ∷ c ∷ d ∷ []) ip h e = ground arith
ipv4_of_parts-lt (a ∷ b ∷ c ∷ d ∷ _ ∷ _) ip h e = cc

-- A parsed address fits 32 bits.
pub parse_ipv4-lt : (s : Text) (ip : ℕ) → parse_ipv4 s ≡ some ip → ip < 2 ^ 32
unfolding parse_ipv4
parse_ipv4-lt s ip e = ipv4_of_parts-lt (octets (split b'.' s)) ip (octets-All-le (split b'.' s)) e

octets-append : (ps qs : List Text) → octets (ps ++ qs) ≡ octets ps ++ octets qs
unfolding octets
octets-append [] qs = refl
octets-append (p ∷ ps) qs = elim (Option-cases (parse_uint 255 p)) [
  | inl e ↦ rw (e, octets) (octets-append ps qs)
  | inr (n, e) ↦ rw (e, octets) (ap (◌∷◌ n) (octets-append ps qs))
]

octets_junk :
    (junk : Text) (ps : List Text) → parse_uint 255 junk ≡ none → octets (junk ∷ ps) ≡ octets ps
unfolding octets
octets_junk junk ps bad = rw (bad, octets)

-- A part that is no octet is passed over wherever it stands: a text with such a part between two
-- dots is read as if that part and its dot were not there.
pub parse_ipv4_ignores_junk :
    (before junk behind : Text)
    → Lacks b'.' junk
    → parse_uint 255 junk ≡ none
    → parse_ipv4 (before ++ b'.' ∷ (junk ++ b'.' ∷ behind)) ≡ parse_ipv4 (before ++ b'.' ∷ behind)
unfolding parse_ipv4
parse_ipv4_ignores_junk before junk behind lacks bad = rw (
  split-append_any b'.' before (junk ++ b'.' ∷ behind),
  split-append_any b'.' before behind,
  split-append b'.' junk behind lacks,
  octets-append (split b'.' before) (junk ∷ split b'.' behind),
  octets-append (split b'.' before) (split b'.' behind),
  octets_junk junk (split b'.' behind) bad,
)
