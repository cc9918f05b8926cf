-- ===== src/Net/RoundTrip.antt =====
-- orb8-agent/src/net.rs: `parse_ipv4` undoes `format_ipv4`.
use orb.Prelude.{ℕ, ◌%◌, ◌^◌, ◌≤◌, ◌<◌, ◌≡◌, ap, List, [], ◌∷◌, some, arith, All-imp}
use orb.Prelude.Text.{Text, split, Lacks, split-append, split-Lacks}
use orb.Prelude.Decimal.{format_uint}
use orb.Prelude.Decimal.RoundTrip.{IsDigit, format_uint-IsDigit, parse_uint-format_uint}
use orb.Net.{octet, format_ipv4, octets, ipv4_of_parts, parse_ipv4}

-- A printed number holds no dot.
format_uint-Lacks : (n : ℕ) → Lacks b'.' (format_uint n)
format_uint-Lacks n =
    All-imp (format_uint n) (λ c (h : IsDigit c). omega arith) (format_uint-IsDigit n)

split-format_ipv4 :
    (ip : ℕ)
    → split b'.' (format_ipv4 ip)
      ≡ format_uint (ip % 256)
        ∷ format_uint (octet ip 8)
        ∷ format_uint (octet ip 16)
        ∷ format_uint (octet ip 24)
        ∷ []
unfolding format_ipv4
split-format_ipv4 ip = rw (
  split-append b'.' _ _ (format_uint-Lacks (ip % 256)),
  split-append b'.' _ _ (format_uint-Lacks (octet ip 8)),
  split-append b'.' _ _ (format_uint-Lacks (octet ip 16)),
  split-Lacks b'.' _ (format_uint-Lacks (octet ip 24)),
)

octets-format_uint :
    (n : ℕ) (ps : List Text) → n ≤ 255 → octets (format_uint n ∷ ps) ≡ n ∷ octets ps
unfolding octets
octets-format_uint n ps h = ground (arith, parse_uint-format_uint 255 n h)

-- Every address of 32 bits is read back from its dotted notation.
pub parse_ipv4-format_ipv4 : (ip : ℕ) → ip < 2 ^ 32 → parse_ipv4 (format_ipv4 ip) ≡ some ip
unfolding parse_ipv4 ipv4_of_parts
parse_ipv4-format_ipv4 ip h = rw (split-format_ipv4 ip) (
    rw
      (
        octets-format_uint (ip % 256) _ (omega arith),
        octets-format_uint (octet ip 8) _ (omega arith),
        octets-format_uint (octet ip 16) _ (omega arith),
        octets-format_uint (octet ip 24) _ (omega arith),
      )
      (unfold octets in ap some (omega arith)))
