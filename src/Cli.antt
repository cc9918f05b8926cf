-- ===== src/Cli.antt =====
-- orb8-cli/src/lib.rs: the durations of the command line client. Its children print rows and run the
-- commands, which call the agent's service and print what it answers.
pub mod Durations
pub mod Rows
pub mod Columns
pub mod Commands
pub mod Tracing
use orb.Prelude.{
  ℕ, ◌+◌, ◌*◌, ◌-◌, ◌^◌, ◌≤◌, Bool, true, false, Option, none, some, ◌>>=◌, List, [], ◌∷◌, ◌++◌,
  if◌then◌else◌, leb, mul_u64,
}
use orb.Prelude.Decimal.{parse_uint}
use orb.Prelude.Text.{Text, codes, byte_len, utf8_len, trim, ends_with, trim_end_matches}

abbrev pub u64_max : ℕ
u64_max = 2 ^ 64 - 1

-- `num.parse()` and `value * unit`, which wraps around in a release build.
abbrev pub scaled : ℕ → Text → Option ℕ
scaled unit num = do value ← parse_uint u64_max num; some (mul_u64 value unit)

-- `parse_duration`, for a text that is trimmed; the result is in milliseconds.
unfoldable pub parse_trimmed : Text → Option ℕ
parse_trimmed s =
    if ends_with s (codes "ms")
    then scaled 1 (trim_end_matches s (codes "ms"))
    else if ends_with s (codes "s")
    then scaled 1000 (trim_end_matches s (codes "s"))
    else if ends_with s (codes "m")
    then scaled 60000 (trim_end_matches s (codes "m"))
    else if ends_with s (codes "h")
    then scaled 3600000 (trim_end_matches s (codes "h"))
    else none

unfoldable pub parse_duration : Text → Option ℕ
parse_duration s = parse_trimmed (trim s)
