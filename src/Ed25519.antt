-- ===== src/Ed25519.antt =====
-- Package `crypto/ed25519`, as far as the program relies on it. The scheme is a parameter; the
-- length checks, which panic, are written out.
use onionmsg.Base.{
  ◌≡◌, Bool, true, ◌&&◌, ◌==◌, ltb, if◌then◌else◌, [], ◌∷◌, ◌++◌, drop, length, Bytes, AreBytes,
  same, same_refl, arith, Outcome, ok, panic,
}

-- `is_key` holds of the private keys that `GenerateKey` returns: 64 bytes, the public key last.
pub record Scheme : Type 0 where
  pub is_key : Bytes → Bool
  pub sign_bytes : Bytes → Bytes → Bytes
  pub verify_bytes : Bytes → Bytes → Bytes → Bool
  pub length_key : (key : Bytes) → is_key key ≡ true → length key ≡ 64
  pub bytes_key : (key : Bytes) → is_key key ≡ true → AreBytes key
  pub verify_sign :
      (key msg : Bytes)
      → is_key key ≡ true
      → verify_bytes (drop 32 key) msg (sign_bytes key msg) ≡ true

-- `privKey.Public()`: the last 32 bytes.
unfoldable pub public_of : Bytes → Bytes
public_of key = drop 32 key

module _ (c : Scheme) where
  -- `ed25519.Sign` panics on a key that is not 64 bytes long.
  unfoldable pub sign : Bytes → Bytes → Outcome Bytes
  sign key msg = if length key == 64 then ok (c.sign_bytes key msg) else panic

  -- `ed25519.Verify` panics on a public key that is not 32 bytes long.
  unfoldable pub verify : Bytes → Bytes → Bytes → Outcome Bool
  verify key msg sig = if length key == 32 then ok (c.verify_bytes key msg sig) else panic

-- A scheme without secrecy, which shows that the assumptions can be met.
unfoldable pub all_bytes : Bytes → Bool
all_bytes [] = true
all_bytes (b ∷ bs) = ltb b 256 && all_bytes bs

pub all_bytes-AreBytes : (bs : Bytes) → all_bytes bs ≡ true → AreBytes bs
unfolding all_bytes
all_bytes-AreBytes [] h = tt
all_bytes-AreBytes (b ∷ bs) h = ground (arith, all_bytes-AreBytes bs)

toy_length : (key : Bytes) → (length key == 64 && all_bytes key) ≡ true → length key ≡ 64
toy_length key h = ground arith

toy_bytes : (key : Bytes) → (length key == 64 && all_bytes key) ≡ true → AreBytes key
toy_bytes key h = all_bytes-AreBytes key (ground arith)

unfoldable pub toy : Scheme
unfolding all_bytes toy_length toy_bytes
toy = record {
  is_key = λ key. length key == 64 && all_bytes key;
  sign_bytes = λ key msg. drop 32 key ++ msg;
  verify_bytes = λ key msg sig. same sig (key ++ msg);
  length_key = toy_length;
  bytes_key = toy_bytes;
  verify_sign = λ key msg h. same_refl (drop 32 key ++ msg);
}
