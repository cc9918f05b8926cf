-- ===== src/Common/Bytes.antt =====
-- orb8-common/src/lib.rs: every record of the size of an event is the layout of exactly one event.
use orb.Prelude.{
  ℕ, zero, suc, ◌+◌, ◌*◌, ◌/◌, ◌%◌, ◌^◌, ◌≤◌, ◌<◌, ◌≡◌, refl, sym, ap, ◌∙◌, List, [], ◌∷◌, ◌++◌,
  arith, length, take, drop, All, All-drop, All-take, take-append-drop, drop-drop, drop-nil_of_le,
  length-take, length-drop, append-nil, Bool, true, false, if◌then◌else◌, ltb, ltb→lt, Bool-cases,
  inl, inr,
}
use native.Mathlib.Nat.{pow-succ'}
use orb.Common.Layout.{le_bytes, from_le_bytes, to_bytes, field_at, of_bytes, event_size, FitsTypes}

abbrev pub IsByte : ℕ → Type 0
IsByte b = b < 256

-- A list of bytes, cut to `w` of them, spells an integer of `w` bytes.
pub from_le_bytes-take-lt :
    (w : ℕ) (bs : List ℕ) → All IsByte bs → from_le_bytes (take w bs) < 256 ^ w
unfolding from_le_bytes
from_le_bytes-take-lt zero bs small = omega arith
from_le_bytes-take-lt (suc w) [] small =
    let p : 256 ^ suc w ≡ 256 * 256 ^ w = pow-succ' 256 w in
    omega (arith, p, from_le_bytes-take-lt w [] tt)
from_le_bytes-take-lt (suc w) (b ∷ bs) (low, small) =
    let p : 256 ^ suc w ≡ 256 * 256 ^ w = pow-succ' 256 w in
    omega (arith, p, from_le_bytes-take-lt w bs small)

le_bytes-from_le_bytes :
    (w : ℕ) (bs : List ℕ) → All IsByte bs → length bs ≡ w → le_bytes w (from_le_bytes bs) ≡ bs
unfolding le_bytes from_le_bytes
le_bytes-from_le_bytes zero [] small e = refl
le_bytes-from_le_bytes zero (b ∷ bs) small e = absurd (omega arith)
le_bytes-from_le_bytes (suc w) [] small e = absurd (omega arith)
le_bytes-from_le_bytes (suc w) (b ∷ bs) (low, small) e =
    let n : ℕ = from_le_bytes bs in
    let low_eq : (b + 256 * n) % 256 ≡ b = omega arith in
    let high_eq : (b + 256 * n) / 256 ≡ n = omega arith in
    rw (low_eq, high_eq) (ap (◌∷◌ b) (le_bytes-from_le_bytes w bs small (omega arith)))

-- A field with what stands behind it.
field :
    (bs : List ℕ) (offset w : ℕ)
    → All IsByte bs
    → offset + w ≤ length bs
    → le_bytes w (field_at bs offset w) ++ drop (offset + w) bs ≡ drop offset bs
unfolding field_at
field bs offset w small inside =
    let part : List ℕ = take w (drop offset bs) in
    let whole : length part ≡ w =
      omega (arith, length-take w (drop offset bs), length-drop offset bs) in
    ap (λ (p : List ℕ). p ++ drop (offset + w) bs)
      (le_bytes-from_le_bytes w part
        (All-take IsByte w (drop offset bs) (All-drop IsByte offset bs small)) whole)
    ∙ (ap (λ (r : List ℕ). part ++ r) (sym (drop-drop offset w bs))
        ∙ take-append-drop w (drop offset bs))

-- Each field of an event that is read from bytes fits its type.
pub of_bytes-FitsTypes : (bs : List ℕ) → All IsByte bs → FitsTypes (of_bytes bs)
unfolding of_bytes field_at
of_bytes-FitsTypes bs small = record {
  timestamp_ns = fits 0 8;
  cgroup_id = fits 8 8;
  src_ip = fits 16 4;
  dst_ip = fits 20 4;
  src_port = fits 24 2;
  dst_port = fits 26 2;
  protocol = fits 28 1;
  direction = fits 29 1;
  packet_len = fits 30 2;
}
  where
    fits : (offset w : ℕ) → from_le_bytes (take w (drop offset bs)) < 256 ^ w
    fits offset w = from_le_bytes-take-lt w (drop offset bs) (All-drop IsByte offset bs small)

-- Each record of 32 bytes is the layout of the event that the agent reads from it, and each field of
-- that event fits its type.
pub to_bytes-of_bytes :
    (bs : List ℕ)
    → All IsByte bs
    → length bs ≡ event_size
    → (to_bytes (of_bytes bs) ≡ bs) × FitsTypes (of_bytes bs)
unfolding to_bytes of_bytes
to_bytes-of_bytes bs small whole = (
  behind 0 8
      (behind 8 8
        (behind 16 4
          (behind 20 4
            (behind 24 2
              (behind 26 2
                (behind 28 1
                  (behind 29 1
                    (sym (append-nil (le_bytes 2 (field_at bs 30 2)))
                      ∙ (ap (λ (r : List ℕ). le_bytes 2 (field_at bs 30 2) ++ r)
                            (sym (drop-nil_of_le 32 bs (omega arith)))
                          ∙ field bs 30 2 small (omega arith)))
                    (omega arith))
                  (omega arith))
                (omega arith))
              (omega arith))
            (omega arith))
          (omega arith))
        (omega arith))
      (omega arith),
  of_bytes-FitsTypes bs small,
)
  where
    behind :
        (offset w : ℕ) {rest : List ℕ}
        → rest ≡ drop (offset + w) bs
        → offset + w ≤ length bs
        → le_bytes w (field_at bs offset w) ++ rest ≡ drop offset bs
    behind offset w e inside =
        ap (λ (r : List ℕ). le_bytes w (field_at bs offset w) ++ r) e
        ∙ field bs offset w small inside

-- A test for lists of bytes.
abbrev pub are_bytes : List ℕ → Bool
are_bytes [] = true
are_bytes (b ∷ bs) = if ltb b 256 then are_bytes bs else false

pub are_bytes-IsByte : (bs : List ℕ) → are_bytes bs ≡ true → All IsByte bs
are_bytes-IsByte [] e = tt
are_bytes-IsByte (b ∷ bs) e = elim (Bool-cases (ltb b 256)) [
  | inl low ↦ (ltb→lt b 256 low, are_bytes-IsByte bs (ground arith))
  | inr high ↦ absurd (ground arith)
]
