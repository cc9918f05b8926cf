-- ===== src/ProbeLoader/Kernel.antt =====
-- orb8-agent/src/probe_loader.rs: the check of the kernel's version.
use orb.Prelude.{ℕ, ◌≤◌, ◌<◌, ◌≡◌, ◌↔◌, ◌⊎◌, some, ◌∷◌, ◌++◌, arith, All-imp}
use orb.Prelude.Text.{Text, Lacks, split-append, split-Lacks}
use orb.Prelude.Decimal.{format_uint}
use orb.Prelude.Decimal.RoundTrip.{IsDigit, format_uint-IsDigit, parse_uint-format_uint}
use orb.Prelude.Trim.{trim-format_uint}
use orb.ProbeLoader.{supported, check_kernel_version, before_dash, u32_max}

-- A printed number holds neither a dot nor a dash.
format_uint-Lacks : (sep n : ℕ) → sep < b'0' → Lacks sep (format_uint n)
format_uint-Lacks sep n low =
    All-imp (format_uint n) (λ c (d : IsDigit c). omega arith) (format_uint-IsDigit n)

before_dash-format_uint : (n : ℕ) → before_dash (format_uint n) ≡ format_uint n
before_dash-format_uint n =
    rw (split-Lacks b'-' (format_uint n) (format_uint-Lacks b'-' n (omega arith)))

-- A version `major.minor.` with anything behind it passes exactly if it is 5.8 or later.
-- Both numbers have to fit 32 bits.
pub check_kernel_version_iff :
    (major minor : ℕ) (rest : Text)
    → major ≤ u32_max
    → minor ≤ u32_max
    → (check_kernel_version (some (format_uint major ++ b'.' ∷ (format_uint minor ++ b'.' ∷ rest)))
        ≡ supported)
      ↔ ((5 < major) ⊎ ((major ≡ 5) × (8 ≤ minor)))
unfolding check_kernel_version
check_kernel_version_iff major minor rest fits fits' =
    rw
      (
        split-append b'.' (format_uint major) _ (format_uint-Lacks b'.' major (omega arith)),
        split-append b'.' (format_uint minor) rest (format_uint-Lacks b'.' minor (omega arith)),
        before_dash-format_uint minor,
        trim-format_uint major,
        trim-format_uint minor,
        parse_uint-format_uint u32_max major fits,
        parse_uint-format_uint u32_max minor fits',
      )
      (λ e. ground arith, λ h. ground arith)
