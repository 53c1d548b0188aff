-- ===== src/Base64.antt =====
-- `base64.RawURLEncoding` of Go's standard library, by which a public key is written as a
-- fingerprint: four characters for three bytes, no padding. Decoding skips line breaks, and does
-- not look at the bits that a last short group has too many.
pub mod RoundTrip
use onionmsg.Base.{
  ℕ, ◌+◌, ◌-◌, ◌*◌, ◌/◌, ◌%◌, ◌==◌, ltb, leb, if◌then◌else◌, Bool, not, ◌&&◌, ◌||◌, [], ◌∷◌, Bytes,
  codes, Outcome, ok, err, corrupt_input, ◌>>=◌, keep, ◌≡◌, refl,
}

-- The character of a 6-bit digit.
unfoldable pub char_of : ℕ → ℕ
char_of s =
    if ltb s 26
    then s + b'A'
    else if ltb s 52
    then s - 26 + b'a'
    else if ltb s 62
    then s - 52 + b'0'
    else if s == 62
    then b'-'
    else b'_'

unfoldable pub digit_of : ℕ → Outcome ℕ
digit_of c =
    if leb b'A' c && leb c b'Z'
    then ok (c - b'A')
    else if leb b'a' c && leb c b'z'
    then ok (c - b'a' + 26)
    else if leb b'0' c && leb c b'9'
    then ok (c - b'0' + 52)
    else if c == b'-'
    then ok 62
    else if c == b'_'
    then ok 63
    else err corrupt_input

unfoldable pub encode : Bytes → Bytes
encode [] = []
encode (a ∷ []) = char_of (a / 4) ∷ char_of (a % 4 * 16) ∷ []
encode (a ∷ b ∷ []) = char_of (a / 4) ∷ char_of (a % 4 * 16 + b / 16) ∷ char_of (b % 16 * 4) ∷ []
encode (a ∷ b ∷ c ∷ rest) =
    char_of (a / 4)
    ∷ char_of (a % 4 * 16 + b / 16)
    ∷ char_of (b % 16 * 4 + c / 64)
    ∷ char_of (c % 64)
    ∷ encode rest

unfoldable pub decode_groups : Bytes → Outcome Bytes
decode_groups [] = ok []
decode_groups (p ∷ []) = err corrupt_input
decode_groups (p ∷ q ∷ []) = do x ← digit_of p; y ← digit_of q; ok ((x * 4 + y / 16) ∷ [])
decode_groups (p ∷ q ∷ r ∷ []) = do
  x ← digit_of p
  y ← digit_of q
  z ← digit_of r
  ok ((x * 4 + y / 16) ∷ (y % 16 * 16 + z / 4) ∷ [])
decode_groups (p ∷ q ∷ r ∷ s ∷ rest) = do
  x ← digit_of p
  y ← digit_of q
  z ← digit_of r
  w ← digit_of s
  bytes ← decode_groups rest
  ok ((x * 4 + y / 16) ∷ (y % 16 * 16 + z / 4) ∷ (z % 4 * 64 + w) ∷ bytes)

abbrev pub is_digit_char : ℕ → Bool
is_digit_char c = not (c == b'\n' || c == b'\r')

unfoldable pub decode : Bytes → Outcome Bytes
decode s = decode_groups (keep is_digit_char s)

encode_text : encode (codes "onion!?") ≡ codes "b25pb24hPw"
unfolding encode char_of
encode_text = refl

decode_text : decode (codes "b25p\nb24hPx") ≡ ok (codes "onion!?")
unfolding decode decode_groups digit_of
decode_text = refl
