-- ===== src/Contact/Agreement.antt =====
-- What both sides of a contact agree on.
use onionmsg.Base.{
  ◌≡◌, refl, true, false, ◌++◌, [], none, some, Bytes, ok, err, panic, Error, arith, inl, inr,
  Outcome-cases, ok-injective, sym, ◌∙◌,
}
use onionmsg.Base64.{encode, decode}
use onionmsg.Base64.RoundTrip.{decode_cases}
use onionmsg.Ed25519.{Scheme, public_of}
use onionmsg.Identity.{
  Identity, remote, self, contact, new_identity, verify, fingerprint, empty_meta,
}
use onionmsg.Identity.Keys.{new_identity-encode, new_identity_keys, verify-sign, public_of-AreBytes}
use onionmsg.Peer.{Peer, new_messaging_peer}
use onionmsg.Contact.{ContactRequest, ContactResponse, peer_of_response, contact_response, inviter}

module _ (c : Scheme) where
  accepted :
      (known peer_id : Identity) (id : Bytes) (resp : ContactResponse)
      → verify c known (resp.conv_fp ++ id) resp.sig ≡ ok true
      → new_identity remote [] resp.conv_fp ≡ ok peer_id
      → peer_of_response c known id resp ≡ ok (new_messaging_peer peer_id)
  unfolding peer_of_response new_messaging_peer
  accepted known peer_id id resp verified made = rw (peer_of_response, verified, made) refl

  -- Both sides agree: a contact with a generated key answers a request with a generated identity for
  -- the conversation. The room that knows no more of the contact than its fingerprint accepts the
  -- answer for the id that it sent, and the peer it makes has the identity's fingerprint.
  pub peer_of_response-contact_response :
      (key conv_key gen fp fp' : Bytes) (cont conv_id known : Identity) (req : ContactRequest)
      → c.is_key key ≡ true
      → c.is_key conv_key ≡ true
      → new_identity contact key fp ≡ ok cont
      → new_identity self conv_key fp' ≡ ok conv_id
      → new_identity remote gen (fingerprint cont) ≡ ok known
      → (resp : ContactResponse) × (p : Peer) × (contact_response c cont conv_id req ≡ ok resp)
        × (peer_of_response c known req.id resp ≡ ok p)
        × (fingerprint p.r_identity ≡ fingerprint conv_id)
  unfolding contact_response fingerprint
  peer_of_response-contact_response key conv_key gen fp fp' cont conv_id known req g g' hc hs hk =
      let (j, sig, made, signed, verified) =
        verify-sign c key g contact fp gen (fingerprint conv_id ++ req.id) cont (λ e. ground arith)
          hc in
      let j_known : j ≡ known = ok-injective (sym made ∙ hk) in
      let (_, pub_key) = new_identity_keys c conv_key g' self fp' (λ e. ground arith) hs in
      let named : fingerprint conv_id ≡ encode (public_of conv_key) =
        unfold fingerprint in rw pub_key refl in
      let made' = new_identity-encode [] (public_of conv_key) (public_of-AreBytes c conv_key g') in
      (
        record { conv_fp = fingerprint conv_id; sig = sig },
        new_messaging_peer (record {
          type = remote;
          priv = none;
          pub_key = some (public_of conv_key);
          meta = some empty_meta;
        }),
        rw (signed, contact_response) refl,
        accepted known _ _ _ (rw (← j_known) verified) (rw named made'),
        rw named (unfold fingerprint new_messaging_peer in refl),
      )

  -- A room takes a peer only from an answer that the contact's key signed, for the room's own id.
  pub peer_of_response-signed :
      (known : Identity) (id : Bytes) (resp : ContactResponse) (p : Peer)
      → peer_of_response c known id resp ≡ ok p
      → (verify c known (resp.conv_fp ++ id) resp.sig ≡ ok true)
        × ((key : Bytes) × (decode resp.conv_fp ≡ ok key) × (p.r_identity.pub_key ≡ some key))
  unfolding peer_of_response new_identity new_messaging_peer
  peer_of_response-signed known id resp p h =
      elim (Outcome-cases (verify c known (resp.conv_fp ++ id) resp.sig)) [
        | inr (inl (e, v)) ↦ absurd (ground arith)
        | inr (inr v) ↦ absurd (ground arith)
        | inl (false, v) ↦ absurd (ground arith)
        | inl (true, v) ↦ elim (decode_cases resp.conv_fp) [
          | inr (e, bad) ↦ absurd (ground arith)
          | inl (key, named) ↦ (v, (key, named, ground arith))
        ]
      ]

-- The other side's fingerprint is not checked: one that does not decode ends the daemon.
pub inviter-panic :
    (req : ContactRequest) (e : Error) → decode req.local_fp ≡ err e → inviter req ≡ panic
unfolding inviter new_identity
inviter-panic req e h = ground arith
