-- ===== src/Cli/Rows.antt =====
-- orb8-cli/src/lib.rs: the rows that the client prints. The standard library's formatting of text and
-- of numbers is written out.
use orb.Prelude.{
  ℕ, zero, suc, ◌+◌, ◌-◌, ◌*◌, ◌/◌, ◌%◌, ◌^◌, Option, none, some, ◌>>=◌, [], ◌∷◌, ◌++◌,
  if◌then◌else◌, ltb, leb, ◌==◌, length, map_option,
}
use orb.Prelude.Decimal.{format_uint}
use orb.Prelude.Text.{Text, codes, utf8_len, byte_len}

-- `&s[..k]`, which panics (`none`) beyond the end and inside of a character
unfoldable pub prefix : Text → ℕ → Option Text
prefix [] k = if k == 0 then some [] else none
prefix (c ∷ s) k =
    let rest = prefix s (k - utf8_len c) in
    if k == 0 then some [] else if leb (utf8_len c) k then map_option (◌∷◌ c) rest else none

unfoldable pub truncate : Text → ℕ → Option Text
truncate s max_len =
    if leb (byte_len s) max_len
    then some s
    else map_option (λ p. p ++ codes "...") (prefix s (max_len - 3))

unfoldable pub spaces : ℕ → Text
spaces zero = []
spaces (suc n) = b' ' ∷ spaces n

-- `{:<w}` and `{:>w}`, which count characters
unfoldable pub pad_right : ℕ → Text → Text
pad_right w s = s ++ spaces (w - length s)

unfoldable pub pad_left : ℕ → Text → Text
pad_left w s = spaces (w - length s) ++ s

-- `n / d`, rounded to the nearest integer, and halfway to the even one
abbrev pub round_half_even : ℕ → ℕ → ℕ
round_half_even n d =
    if ltb (2 * (n % d)) d
    then n / d
    else if ltb d (2 * (n % d))
    then suc (n / d)
    else n / d + n / d % 2

-- The distance of the `f64` around a `u64`: 1 below 2^53, twice as large with each further bit.
unfoldable pub f64_unit : ℕ → ℕ → ℕ
f64_unit zero n = 1
f64_unit (suc fuel) n = let rest = f64_unit fuel (n / 2) in if ltb n (2 ^ 53) then 1 else 2 * rest

-- `bytes as f64`; a `u64` has 11 bits more than the fraction of an `f64`
unfoldable pub as_f64 : ℕ → ℕ
as_f64 bytes = round_half_even bytes (f64_unit 11 bytes) * f64_unit 11 bytes

-- `{:.1}` of `bytes as f64 / unit`, in tenths. The unit is a power of two, by which an `f64` is
-- divided exactly.
unfoldable pub tenths : ℕ → ℕ → ℕ
tenths bytes unit = round_half_even (10 * as_f64 bytes) unit

abbrev pub one_decimal : ℕ → Text
one_decimal t = format_uint (t / 10) ++ b'.' ∷ format_uint (t % 10)

unfoldable pub format_bytes : ℕ → Text
format_bytes bytes =
    if ltb bytes 1024
    then format_uint bytes ++ codes "B"
    else if ltb bytes (1024 * 1024)
    then one_decimal (tenths bytes 1024) ++ codes "KB"
    else if ltb bytes (1024 * 1024 * 1024)
    then one_decimal (tenths bytes (1024 * 1024)) ++ codes "MB"
    else one_decimal (tenths bytes (1024 * 1024 * 1024)) ++ codes "GB"

-- The columns of a row; the last one is the time of an event, or the packets of a flow.
pub record Columns : Type 0 where
  pub namespace : Text
  pub pod_name : Text
  pub protocol : Text
  pub src_ip : Text
  pub src_port : ℕ
  pub dst_ip : Text
  pub dst_port : ℕ
  pub direction : Text
  pub bytes : ℕ

-- `format!("{}/{}", namespace, truncate(&pod_name, 12))`, cut to 20 bytes
unfoldable pub ns_pod : Text → Text → Option Text
ns_pod namespace pod_name = do short ← truncate pod_name 12; truncate (namespace ++ b'/' ∷ short) 20

abbrev pub endpoint : Text → ℕ → Text
endpoint ip port = ip ++ b':' ∷ format_uint port

abbrev pub line : Text → Text → Text → Text → Text → Text → Text → Text
line first protocol src dst direction bytes last =
    pad_right 20 first
    ++ b' '
      ∷ (pad_right 15 protocol
          ++ b' '
            ∷ (pad_left 21 src
                ++ b' '
                  ∷ (pad_left 21 dst
                      ++ b' '
                        ∷ (pad_left 8 direction ++ b' ' ∷ (pad_left 9 bytes ++ b' ' ∷ last)))))

-- A row, with its last column; `none` where the program panics.
unfoldable pub row : Columns → Text → Option Text
row c last = do
  name ← ns_pod c.namespace c.pod_name
  some (
      line name c.protocol (endpoint c.src_ip c.src_port) (endpoint c.dst_ip c.dst_port) c.direction
        (format_bytes c.bytes) last)
