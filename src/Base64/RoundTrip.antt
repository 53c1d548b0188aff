-- ===== src/Base64/RoundTrip.antt =====
-- Decoding undoes encoding, so that two keys with one fingerprint are one key.
use mathlib.Core.Bool.{true}
use onionmsg.Base.{
  ℕ, ◌+◌, ◌*◌, ◌/◌, ◌%◌, ◌<◌, ◌≡◌, refl, ◌∙◌, ◌≢◌, panic, err, Error, Outcome-cases, ◌⊎◌, inl, inr,
  [], ◌∷◌, Bytes, AreBytes, ok, arith, keep,
}
use onionmsg.Base64.{char_of, digit_of, encode, decode_groups, decode, is_digit_char}

digit_of-char_of : (s : ℕ) → s < 64 → digit_of (char_of s) ≡ ok s
unfolding digit_of char_of
digit_of-char_of s h = ground arith

is_digit_char-char_of : (s : ℕ) → s < 64 → is_digit_char (char_of s) ≡ true
unfolding char_of
is_digit_char-char_of s h = ground arith

keep-encode : (bs : Bytes) → AreBytes bs → keep is_digit_char (encode bs) ≡ encode bs
unfolding encode
keep-encode [] h = refl
keep-encode (a ∷ []) h =
    ground (arith, is_digit_char-char_of (a / 4), is_digit_char-char_of (a % 4 * 16))
keep-encode (a ∷ b ∷ []) h = ground (
  arith,
  is_digit_char-char_of (a / 4),
  is_digit_char-char_of (a % 4 * 16 + b / 16),
  is_digit_char-char_of (b % 16 * 4),
)
keep-encode (a ∷ b ∷ c ∷ rest) h = ground (
  arith,
  is_digit_char-char_of (a / 4),
  is_digit_char-char_of (a % 4 * 16 + b / 16),
  is_digit_char-char_of (b % 16 * 4 + c / 64),
  is_digit_char-char_of (c % 64),
  keep-encode rest h.1.1.1,
)

module _ (p q : ℕ) {x y : ℕ} (hp : digit_of p ≡ ok x) (hq : digit_of q ≡ ok y) where
  decode_groups_two : decode_groups (p ∷ q ∷ []) ≡ ok ((x * 4 + y / 16) ∷ [])
  unfolding decode_groups
  decode_groups_two = rw (hp, hq)

  module _ (r : ℕ) {z : ℕ} (hr : digit_of r ≡ ok z) where
    decode_groups_three :
        decode_groups (p ∷ q ∷ r ∷ []) ≡ ok ((x * 4 + y / 16) ∷ (y % 16 * 16 + z / 4) ∷ [])
    unfolding decode_groups
    decode_groups_three = rw (hp, hq, hr)

    decode_groups_four :
        (s : ℕ) {w : ℕ} (rest : Bytes) {bytes : Bytes}
        → digit_of s ≡ ok w
        → decode_groups rest ≡ ok bytes
        → decode_groups (p ∷ q ∷ r ∷ s ∷ rest)
          ≡ ok ((x * 4 + y / 16) ∷ (y % 16 * 16 + z / 4) ∷ (z % 4 * 64 + w) ∷ bytes)
    unfolding decode_groups
    decode_groups_four s rest hs ih = rw (hp, hq, hr, hs, ih)

decode_groups-encode : (bs : Bytes) → AreBytes bs → decode_groups (encode bs) ≡ ok bs
unfolding encode
decode_groups-encode [] h = unfold decode_groups in refl
decode_groups-encode (a ∷ []) h =
    decode_groups_two _ _ (digit_of-char_of (a / 4) (omega arith))
      (digit_of-char_of (a % 4 * 16) (omega arith))
    ∙ ground arith
decode_groups-encode (a ∷ b ∷ []) h =
    decode_groups_three _ _ (digit_of-char_of (a / 4) (omega arith))
      (digit_of-char_of (a % 4 * 16 + b / 16) (omega arith)) _
      (digit_of-char_of (b % 16 * 4) (omega arith))
    ∙ ground arith
decode_groups-encode (a ∷ b ∷ c ∷ rest) h =
    decode_groups_four _ _ (digit_of-char_of (a / 4) (omega arith))
      (digit_of-char_of (a % 4 * 16 + b / 16) (omega arith)) _
      (digit_of-char_of (b % 16 * 4 + c / 64) (omega arith)) (char_of (c % 64)) (encode rest)
      (digit_of-char_of (c % 64) (omega arith)) (decode_groups-encode rest h.1.1.1)
    ∙ ground arith

-- Decoding what was encoded gives the bytes back.
pub decode-encode : (bs : Bytes) → AreBytes bs → decode (encode bs) ≡ ok bs
unfolding decode
decode-encode bs h = rw (keep-encode bs h) (decode_groups-encode bs h)

digit_of-ne-panic : (c : ℕ) → digit_of c ≢ panic
unfolding digit_of
digit_of-ne-panic c h = ground arith

decode_groups-ne-panic : (s : Bytes) → decode_groups s ≢ panic
unfolding decode_groups
decode_groups-ne-panic [] h = ground arith
decode_groups-ne-panic (p ∷ []) h = ground arith
decode_groups-ne-panic (p ∷ q ∷ []) h = ground (arith, digit_of-ne-panic p, digit_of-ne-panic q)
decode_groups-ne-panic (p ∷ q ∷ r ∷ []) h =
    ground (arith, digit_of-ne-panic p, digit_of-ne-panic q, digit_of-ne-panic r)
decode_groups-ne-panic (p ∷ q ∷ r ∷ s ∷ rest) h = ground (
  arith,
  digit_of-ne-panic p,
  digit_of-ne-panic q,
  digit_of-ne-panic r,
  digit_of-ne-panic s,
  decode_groups-ne-panic rest,
)

-- Decoding fails with an error at worst.
pub decode_cases :
    (s : Bytes) → ((raw : Bytes) × (decode s ≡ ok raw)) ⊎ ((e : Error) × (decode s ≡ err e))
unfolding decode
decode_cases s = elim (Outcome-cases (decode_groups (keep is_digit_char s))) [
  | inl (raw, e) ↦ inl (raw, e)
  | inr (inl (e, h)) ↦ inr (e, h)
  | inr (inr h) ↦ absurd (decode_groups-ne-panic _ h)
]
