-- ===== src/Message/Signature.antt =====
-- Which messages `SigIsValid` accepts, and that `NewMessage` makes such messages.
use onionmsg.Base.{
  ℕ, ◌&&◌, ◌++◌, ◌≡◌, ◌≢◌, refl, ◌↔◌, Bool, true, false, inl, inr, Bytes, length, ◌==◌, arith, ok,
  Bool-cases,
}
use onionmsg.Base64.{decode}
use onionmsg.Base64.RoundTrip.{decode-encode, decode_cases}
use onionmsg.Ed25519
use onionmsg.Ed25519.{Scheme, public_of}
use onionmsg.Identity.{Identity, IdentityType, fingerprint, remote, new_identity}
use onionmsg.Identity.Keys.{new_identity_keys, public_of-AreBytes, length-public_of, sign_lem}
use onionmsg.Message.{
  Message, MessageMeta, MessageContent, Reply, Marshal, message, content, no_reply, reply_to,
  reply_of, meta_of, content_of, sign_data, sign, new_message, sig_is_valid, reply_is_valid,
  check_sig, utc,
}

module _ (c : Scheme) (j : Marshal) where
  -- The sender's fingerprint names a key of the right length, which made the signature over what
  -- `encoding/json` makes of the metadata and of the content.
  abbrev pub Signed : MessageMeta → MessageContent → Bytes → Type 0
  Signed m k sig =
      (key : Bytes) × (decode m.sender ≡ ok key)
      × (length key ≡ 32)
      × (c.verify_bytes key (j.marshal_meta m ++ j.marshal_content k) sig ≡ true)

  -- A message is signed by the key that its sender's fingerprint names, and so is every message
  -- that it replies to, in turn.
  unfoldable mutual
    pub Authentic : Message → Type 0
    Authentic (message m (content t r b d) sig) = Signed m (content t r b d) sig × AuthenticReply r

    pub AuthenticReply : Reply → Type 0
    AuthenticReply no_reply = Unit {0}
    AuthenticReply (reply_to m) = Authentic m

  check_sig_total :
      (v : Bool) (m : MessageMeta) (k : MessageContent) (sig : Bytes)
      → (w : Bool) × (check_sig c j (ok v) m k sig ≡ ok w)
  unfolding check_sig Ed25519.verify
  check_sig_total v m k sig = elim (decode_cases m.sender) [
    | inr (e, h) ↦ (false, ground arith)
    | inl (raw, h) ↦ elim (Bool-cases (length raw == 32)) [
      | inr short ↦ (false, ground arith)
      | inl fits ↦ (v && c.verify_bytes raw (sign_data c j m k) sig, ground arith)
    ]
  ]

  check_sig-Signed :
      (v : Bool) (m : MessageMeta) (k : MessageContent) (sig : Bytes)
      → check_sig c j (ok v) m k sig ≡ ok true
      → Signed m k sig × (v ≡ true)
  unfolding check_sig sign_data Ed25519.verify
  check_sig-Signed v m k sig ok_true = elim (decode_cases m.sender) [
    | inr (e, h) ↦ absurd (ground arith)
    | inl (raw, h) ↦ ((raw, h, ground arith, ground arith), ground arith)
  ]

  Signed-check_sig :
      (m : MessageMeta) (k : MessageContent) (sig : Bytes)
      → Signed m k sig
      → check_sig c j (ok true) m k sig ≡ ok true
  unfolding check_sig sign_data Ed25519.verify
  Signed-check_sig m k sig (key, h, n, v) = ground arith

  mutual
    unfolding sig_is_valid reply_is_valid

    sig_is_valid_total : (m : Message) → (v : Bool) × (sig_is_valid c j m ≡ ok v)
    sig_is_valid_total (message m (content t r b d) sig) =
        let (v, e) = reply_is_valid_total r in rw e (check_sig_total v m (content t r b d) sig)

    reply_is_valid_total : (r : Reply) → (v : Bool) × (reply_is_valid c j r ≡ ok v)
    reply_is_valid_total no_reply = (true, refl)
    reply_is_valid_total (reply_to m) = sig_is_valid_total m

  mutual
    unfolding sig_is_valid reply_is_valid Authentic AuthenticReply

    Authentic-sig : (m : Message) → sig_is_valid c j m ≡ ok true → Authentic m
    Authentic-sig (message m (content t r b d) sig) h =
        let (v, e) = reply_is_valid_total r in
        let (signed, chain) = check_sig-Signed v m (content t r b d) sig (rw e at h) in
        (signed, Authentic-reply r (rw (e, chain)))

    Authentic-reply : (r : Reply) → reply_is_valid c j r ≡ ok true → AuthenticReply r
    Authentic-reply no_reply h = tt
    Authentic-reply (reply_to m) h = Authentic-sig m h

  mutual
    unfolding sig_is_valid reply_is_valid Authentic AuthenticReply

    sig-Authentic : (m : Message) → Authentic m → sig_is_valid c j m ≡ ok true
    sig-Authentic (message m (content t r b d) sig) (signed, chain) =
        rw (reply-Authentic r chain) (Signed-check_sig m (content t r b d) sig signed)

    reply-Authentic : (r : Reply) → AuthenticReply r → reply_is_valid c j r ≡ ok true
    reply-Authentic no_reply h = refl
    reply-Authentic (reply_to m) h = sig-Authentic m h

  -- `SigIsValid` answers on every message, whatever bytes a peer sent: it neither panics nor fails.
  -- It answers true exactly for the authentic messages: the sender's fingerprint decodes to 32
  -- bytes, which verify the signature over the encoded metadata followed by the encoded content, and
  -- the same holds of the message that is replied to, all the way down.
  pub sig_is_valid_iff :
      (m : Message)
      → ((v : Bool) × (sig_is_valid c j m ≡ ok v)) × ((sig_is_valid c j m ≡ ok true) ↔ Authentic m)
  sig_is_valid_iff m = (sig_is_valid_total m, (Authentic-sig m, sig-Authentic m))

  module _ (key : Bytes) (generated : c.is_key key ≡ true) where
    -- A message that an identity with a generated key makes carries that identity's fingerprint,
    -- the time and the content it was given, and is accepted wherever the message that it replies
    -- to is.
    pub new_message-Authentic :
        (t : IdentityType) (fp : Bytes) (i : Identity) (now : ℕ) (k : MessageContent)
        → t ≢ remote
        → new_identity t key fp ≡ ok i
        → AuthenticReply (reply_of k)
        → (m : Message) × (new_message c j now k i ≡ ok m)
          × (meta_of m ≡ record { sender = fingerprint i; time = now; zone = utc })
          × (content_of m ≡ k)
          × Authentic m
    unfolding new_message Authentic fingerprint sign sign_data public_of
    new_message-Authentic t fp i now (content ty r b d) ne h chain =
        let (hs, hp) = new_identity_keys c key generated t fp ne h in
        let m : MessageMeta = record { sender = fingerprint i; time = now; zone = utc } in
        (
          message m (content ty r b d) (c.sign_bytes key (sign_data c j m (content ty r b d))),
          rw (hs, new_message) (rw (sign_lem c key generated _)),
          refl,
          refl,
          (
            (
              public_of key,
              rw (hp, fingerprint) (decode-encode _ (public_of-AreBytes c key generated)),
              length-public_of c key generated,
              c.verify_sign key _ generated,
            ),
            chain,
          ),
        )
