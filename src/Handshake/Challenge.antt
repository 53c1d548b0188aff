-- ===== src/Handshake/Challenge.antt =====
-- What the challenge proves to the side that set it.
use onionmsg.Base.{
  ◌≡◌, ◌≢◌, refl, ap, true, ◌==◌, Bytes, Outcome, ok, err, panic, length, arith, inl, inr,
  Bool-cases, ok-injective, sym, ◌∙◌,
}
use onionmsg.Base64.{encode, decode}
use onionmsg.Base64.RoundTrip.{decode_cases, decode-encode}
use onionmsg.Exec.{Exec, resume}
use onionmsg.Ed25519
use onionmsg.Ed25519.{Scheme, public_of}
use onionmsg.Identity.Keys.{new_identity_keys, public_of-AreBytes, verify-sign_bytes, sign_lem}
use onionmsg.Identity.{Identity, IdentityType, remote, new_identity, sign, fingerprint}
use onionmsg.Conn.{Conn, Zstd, read_string, read_bytes, write_bytes, frame, packed, buffer_write}
use onionmsg.Handshake.{proven, read_proof, write_random, read_fingerprint_with_challenge}

-- The fingerprint names a key of 32 bytes that verifies some signature of the challenge.
pub record Proves (c : Scheme) (challenge fp : Bytes) : Type 0 where
  pub key : Bytes
  pub sig : Bytes
  pub named : decode fp ≡ ok key
  pub fits : length key ≡ 32
  pub verified : c.verify_bytes key challenge sig ≡ true

resume-ok :
    {S X Y : Type 0} (first : Outcome X) (second : X → Exec S Y) (s : S) {y : Y} {t : S}
    → resume first second s ≡ (ok y, t)
    → (x : X) × (first ≡ ok x) × (second x s ≡ (ok y, t))
resume-ok panic second s returned = absurd (ground arith)
resume-ok (err failure) second s returned = absurd (ground arith)
resume-ok (ok x) second s returned = (x, refl, returned)

module _ (z : Zstd) (c : Scheme) where
  proven-Proves :
      (challenge fp sig : Bytes) {g : Bytes}
      → proven z c challenge fp sig ≡ ok g
      → Proves c challenge g
  unfolding proven Ed25519.verify
  proven-Proves challenge fp sig {g = g} h = elim (decode_cases fp) [
    | inr (e, bad) ↦ absurd (ground arith)
    | inl (key, named) ↦ elim (Bool-cases (length key == 32)) [
      | inr short ↦ absurd (ground arith)
      | inl fits ↦ elim (Bool-cases (c.verify_bytes key challenge sig)) [
        | inr refused ↦ absurd (ground arith)
        | inl verified ↦
            let g_is : fp ≡ g = ground arith in
            record {
              key = key;
              sig = sig;
              named = rw (← g_is) named;
              fits = ground arith;
              verified = verified;
            }
      ]
    ]
  ]

  read_proof-Proves :
      (challenge : Bytes) (s t : Conn) (fp : Bytes)
      → read_proof z c challenge s ≡ (ok fp, t)
      → Proves c challenge fp
  unfolding read_proof
  read_proof-Proves challenge s t fp h =
      let (named, _, h1) = resume-ok (read_string z s).0 _ _ h in
      let (sig, _, h2) = resume-ok (read_bytes z (read_string z s).1).0 _ _ h1 in
      proven-Proves challenge named sig (ap (λ (o, u). o) h2)

  proven-panic :
      (challenge fp sig key : Bytes)
      → decode fp ≡ ok key
      → length key ≢ 32
      → proven z c challenge fp sig ≡ panic
  unfolding proven Ed25519.verify
  proven-panic challenge fp sig key named long = rw (named, proven) (ground arith)

  write_random-ok : (r : Bytes) (s : Conn) → length r ≡ 32 → (write_random z r s).0 ≡ ok r
  unfolding write_random write_bytes frame packed buffer_write
  write_random-ok r s h = ground arith

  -- If a fingerprint comes out of the challenge, it names a key of 32 bytes that verifies a
  -- signature of the very 32 bytes that were sent.
  pub read_fingerprint_with_challenge-Proves :
      (r : Bytes) (s t : Conn) (fp : Bytes)
      → length r ≡ 32
      → read_fingerprint_with_challenge z c r s ≡ (ok fp, t)
      → Proves c r fp
  unfolding read_fingerprint_with_challenge
  read_fingerprint_with_challenge-Proves r s t fp size h =
      read_proof-Proves r (write_random z r s).1 t fp (rw (write_random-ok r s size) at h)

  pub proven-honest :
      (challenge key fp : Bytes) (t : IdentityType) (i : Identity)
      → c.is_key key ≡ true
      → t ≢ remote
      → new_identity t key fp ≡ ok i
      → proven z c challenge (fingerprint i) (c.sign_bytes key challenge) ≡ ok (fingerprint i)
  unfolding fingerprint proven
  proven-honest challenge key fp t i g ne h =
      let named : fingerprint i ≡ encode (public_of key) =
        rw (new_identity_keys c key g t fp ne h).1 refl in
      let read : decode (fingerprint i) ≡ ok (public_of key) =
        ap decode named ∙ decode-encode (public_of key) (public_of-AreBytes c key g) in
      rw (read, proven, verify-sign_bytes c key g challenge) refl

  -- The side that holds a generated key passes: when its fingerprint and what it signs of the 32
  -- bytes are what is read, the fingerprint comes out.
  pub read_fingerprint_with_challenge-honest :
      (r key fp : Bytes) (t : IdentityType) (i : Identity) (s s1 s2 : Conn) (sig : Bytes)
      → length r ≡ 32
      → c.is_key key ≡ true
      → t ≢ remote
      → new_identity t key fp ≡ ok i
      → sign c i r ≡ ok sig
      → read_string z (write_random z r s).1 ≡ (ok (fingerprint i), s1)
      → read_bytes z s1 ≡ (ok sig, s2)
      → read_fingerprint_with_challenge z c r s ≡ (ok (fingerprint i), s2)
  unfolding read_fingerprint_with_challenge read_proof sign
  read_fingerprint_with_challenge-honest r key fp t i s s1 s2 sig size g ne made signed got got' =
      let sig_is : c.sign_bytes key r ≡ sig =
        ok-injective
          (sym (sign_lem c key g r) ∙ (rw (new_identity_keys c key g t fp ne made).0 at signed)) in
      rw (write_random-ok r s size, got, got')
        (ap (λ o. (o, s2)) (rw (← sig_is) (proven-honest r key fp t i g ne made)))

  -- A fingerprint that decodes to any other number of bytes ends the daemon.
  pub read_fingerprint_with_challenge-panic :
      (r : Bytes) (s s1 s2 : Conn) (fp sig key : Bytes)
      → read_string z (write_random z r s).1 ≡ (ok fp, s1)
      → read_bytes z s1 ≡ (ok sig, s2)
      → length r ≡ 32
      → decode fp ≡ ok key
      → length key ≢ 32
      → read_fingerprint_with_challenge z c r s ≡ (panic, s2)
  unfolding read_fingerprint_with_challenge read_proof
  read_fingerprint_with_challenge-panic r s s1 s2 fp sig key got got' size named long =
      rw (write_random-ok r s size, got, got')
        (ap (λ o. (o, s2)) (proven-panic r fp sig key named long))
