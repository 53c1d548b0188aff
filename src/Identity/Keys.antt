-- ===== src/Identity/Keys.antt =====
-- What the fingerprint of an identity is good for: whoever holds it checks the owner's signatures.
use onionmsg.Base.{
  ℕ, suc, zero, ◌≡◌, ◌≢◌, refl, true, ◌∷◌, [], drop, length, length-drop, Bytes, AreBytes, arith,
  ok, some, none,
}
use onionmsg.Base64.{encode}
use onionmsg.Base64.RoundTrip.{decode-encode}
use onionmsg.Ed25519.{Scheme, public_of}
use onionmsg.Ed25519
use onionmsg.Identity.{
  Identity, IdentityType, remote, self, contact, new_identity, sign, verify, fingerprint,
  empty_meta,
}

AreBytes-drop : (n : ℕ) (bs : Bytes) → AreBytes bs → AreBytes (drop n bs)
AreBytes-drop zero bs h = h
AreBytes-drop (suc n) [] h = tt
AreBytes-drop (suc n) (b ∷ bs) h = AreBytes-drop n bs h.1

-- The fingerprint of a key names that key, whatever the key's length.
pub new_identity-encode :
    (gen key : Bytes)
    → AreBytes key
    → new_identity remote gen (encode key)
      ≡ ok (record { type = remote; priv = none; pub_key = some key; meta = some empty_meta })
unfolding new_identity
new_identity-encode gen key h = rw (decode-encode key h)

module _ (c : Scheme) (key : Bytes) (generated : c.is_key key ≡ true) where
  pub public_of-AreBytes : AreBytes (public_of key)
  unfolding public_of
  public_of-AreBytes = AreBytes-drop 32 key (c.bytes_key key generated)

  pub length-public_of : length (public_of key) ≡ 32
  unfolding public_of
  length-public_of = omega (arith, length-drop 32 key, c.length_key key generated)

  pub sign_lem : (msg : Bytes) → Ed25519.sign c key msg ≡ ok (c.sign_bytes key msg)
  unfolding Ed25519.sign
  sign_lem msg = ground (arith, c.length_key key generated)

  pub verify-sign_bytes :
      (msg : Bytes) → Ed25519.verify c (public_of key) msg (c.sign_bytes key msg) ≡ ok true
  unfolding Ed25519.verify public_of
  verify-sign_bytes msg = ground (arith, length-public_of, c.verify_sign key msg generated)

  -- An identity that was generated keeps its key pair, whichever of the two types it has.
  pub new_identity_keys :
      (t : IdentityType) (fp : Bytes) {i : Identity}
      → t ≢ remote
      → new_identity t key fp ≡ ok i
      → (i.priv ≡ some key) × (i.pub_key ≡ some (public_of key))
  unfolding new_identity
  new_identity_keys remote fp ne h = absurd (ne refl)
  new_identity_keys self fp ne h = ground arith
  new_identity_keys contact fp ne h = ground arith

  -- Whoever knows no more than the fingerprint of a generated identity accepts what it signs: for a
  -- generated key, a type other than remote, any message and whatever else was generated, the
  -- fingerprint makes a remote identity, signing succeeds, and the remote identity verifies the
  -- signature.
  pub verify-sign :
      (t : IdentityType) (fp gen msg : Bytes) (i : Identity)
      → t ≢ remote
      → new_identity t key fp ≡ ok i
      → (j : Identity) × (s : Bytes) × (new_identity remote gen (fingerprint i) ≡ ok j)
        × (sign c i msg ≡ ok s)
        × (verify c j msg s ≡ ok true)
  unfolding fingerprint sign verify
  verify-sign t fp gen msg i ne h =
      let (hs, hp) = new_identity_keys t fp ne h in
      (
        record {
          type = remote;
          priv = none;
          pub_key = some (public_of key);
          meta = some empty_meta;
        },
        c.sign_bytes key msg,
        rw (hp, fingerprint) (new_identity-encode gen (public_of key) public_of-AreBytes),
        rw (hs, sign) (sign_lem msg),
        verify-sign_bytes msg,
      )
