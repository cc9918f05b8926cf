-- ===== src/Cli/Columns.antt =====
-- orb8-cli/src/lib.rs: how wide the first column of a row is.
use orb.Prelude.{
  ℕ, zero, suc, ◌-◌, ◌≤◌, ◌<◌, ◌≡◌, refl, ap, ◌∙◌, inl, inr, Option, some, ◌>>=◌, [], ◌∷◌, ◌++◌,
  arith, All, All-append, All-take, leb, length, length-append, length-take, take, Bool-cases,
}
use orb.Prelude.Text.{Text, codes, byte_len}
use orb.Cli.Rows.{
  prefix, truncate, spaces, pad_right, Columns, ns_pod, line, endpoint, format_bytes, row,
}

abbrev pub IsAscii : ℕ → Type 0
IsAscii c = c < 128

byte_len-ascii : (s : Text) → All IsAscii s → byte_len s ≡ length s
unfolding byte_len
byte_len-ascii [] small = refl
byte_len-ascii (c ∷ s) (low, small) = ground (arith, byte_len-ascii s small)

prefix-ascii : (s : Text) (k : ℕ) → All IsAscii s → k ≤ length s → prefix s k ≡ some (take k s)
unfolding prefix
prefix-ascii [] zero small inside = refl
prefix-ascii [] (suc k) small inside = absurd (omega arith)
prefix-ascii (c ∷ s) zero small inside = refl
prefix-ascii (c ∷ s) (suc k) (low, small) inside =
    let rest : prefix s (suc k - 1) ≡ some (take k s) =
      ap (prefix s) (omega arith) ∙ prefix-ascii s k small (omega arith) in
    ground arith

-- A text of ASCII is cut without a panic, to at most the given length.
truncate-ascii :
    (s : Text) (max_len : ℕ)
    → 3 ≤ max_len
    → All IsAscii s
    → (t : Text) × (truncate s max_len ≡ some t) × All IsAscii t × (length t ≤ max_len)
unfolding truncate
truncate-ascii s max_len room small = elim (Bool-cases (leb (byte_len s) max_len)) [
  | inl short ↦ (s, rw short refl, small, ground (arith, byte_len-ascii s small))
  | inr long ↦
      let more : max_len < length s = ground (arith, byte_len-ascii s small) in
      (
        take (max_len - 3) s ++ codes "...",
        rw (long, prefix-ascii s (max_len - 3) small (omega arith)) refl,
        All-append IsAscii (take (max_len - 3) s) (codes "...")
            (All-take IsAscii (max_len - 3) s small)
            (omega arith, (omega arith, (omega arith, tt))),
        omega (
          arith,
          length-append {0} (take (max_len - 3) s) (codes "..."),
          length-take (max_len - 3) s,
        ),
      )
]

ns_pod-ascii :
    (namespace pod_name : Text)
    → All IsAscii namespace
    → All IsAscii pod_name
    → (t : Text) × (ns_pod namespace pod_name ≡ some t) × (length t ≤ 20)
unfolding ns_pod
ns_pod-ascii namespace pod_name ascii ascii' =
    let (short, e, short_ascii, fits) = truncate-ascii pod_name 12 (omega arith) ascii' in
    let (t, e', t_ascii, t_fits) =
      truncate-ascii (namespace ++ b'/' ∷ short) 20 (omega arith)
        (All-append IsAscii namespace (b'/' ∷ short) ascii (omega arith, short_ascii)) in
    (t, rw e e', t_fits)

length-spaces : (n : ℕ) → length (spaces n) ≡ n
unfolding spaces
length-spaces zero = refl
length-spaces (suc n) = ap suc (length-spaces n)

length-pad_right : (w : ℕ) (s : Text) → length s ≤ w → length (pad_right w s) ≡ w
unfolding pad_right
length-pad_right w s fits =
    omega (arith, length-append {0} s (spaces (w - length s)), length-spaces (w - length s))

-- For a namespace and a pod whose names are ASCII, a row is printed without a panic, whatever the
-- lengths of the two names, and its first column takes up exactly 20 characters.
pub row-column :
    (c : Columns) (last : Text)
    → All IsAscii c.namespace
    → All IsAscii c.pod_name
    → (first rest : Text) × (row c last ≡ some (first ++ b' ' ∷ rest)) × (length first ≡ 20)
unfolding row
row-column c last ascii ascii' =
    let (name, e, fits) = ns_pod-ascii c.namespace c.pod_name ascii ascii' in
    let printed : Text → Text = λ t.
      line t c.protocol (endpoint c.src_ip c.src_port) (endpoint c.dst_ip c.dst_port) c.direction
        (format_bytes c.bytes) last in
    (
      pad_right 20 name,
      _,
      ap (λ (o : Option Text). o >>= (λ t. some (printed t))) e,
      length-pad_right 20 name fits,
    )
