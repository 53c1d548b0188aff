-- ===== src/Handshake/Posts.antt =====
-- Calls on a connection that carries whole messages: texts that are short enough are written, the
-- response that comes is taken, and a challenge is set and answered.
use onionmsg.Base.{◌≡◌, refl, List, [], ◌∷◌, ◌++◌, Bytes, ok, same_refl}
use onionmsg.Ed25519.{Scheme}
use onionmsg.Identity.{Identity, sign, fingerprint}
use onionmsg.Conn.{Conn, Zstd, write_string, read_string, flush}
use onionmsg.Conn.Channel.{Link, Wire, Fits, receive, send, flush-Link}
use onionmsg.Handshake.{
  post, post_now, expect_response, fingerprint_challenge, proven, read_proof, write_random,
  read_fingerprint_with_challenge,
}

module _ (z : Zstd) {d : Conn} {ins outs waits : List Bytes} (m : Bytes)
    (link : Wire z d ins outs waits) (fits : Fits z m) where
  pub post-Wire : (t : Conn) × (post z m d ≡ (ok tt, t)) × Wire z t ins outs (waits ++ (m ∷ []))
  unfolding post write_string
  post-Wire = let (n, t, e, link') = send z m link fits in (t, rw e refl, link')

  pub post_now-Link :
      (t : Conn) × (post_now z m d ≡ (ok tt, t)) × Link z t ins (outs ++ (waits ++ (m ∷ [])))
  unfolding post_now
  post_now-Link = let (t, e, link') = post-Wire in (flush t, rw e refl, flush-Link z link')

-- What is expected and comes is taken.
pub expect_response-Link :
    (z : Zstd) {d : Conn} {ins outs : List Bytes} (m : Bytes)
    → Link z d (m ∷ ins) outs
    → Fits z m
    → (t : Conn) × (expect_response z m d ≡ (ok tt, t)) × Link z t ins outs
unfolding expect_response read_string
expect_response-Link z m link fits =
    let (t, e, link') = receive z m link fits in (t, rw (e, same_refl m) refl, link')

-- A challenge is answered with the fingerprint and the signature.
pub fingerprint_challenge-Link :
    (z : Zstd) (c : Scheme) (i : Identity) {d : Conn} {ins outs : List Bytes} (r sig : Bytes)
    → Link z d (r ∷ ins) outs
    → Fits z r
    → Fits z (fingerprint i)
    → Fits z sig
    → sign c i r ≡ ok sig
    → (t : Conn) × (fingerprint_challenge z c i d ≡ (ok tt, t))
      × Link z t ins (outs ++ (fingerprint i ∷ sig ∷ []))
unfolding fingerprint_challenge write_string
fingerprint_challenge-Link z c i {outs = outs} r sig link fits_r fits_fp fits_sig signed =
    let (t1, e1, link1) = receive z r link fits_r in
    let (n2, t2, e2, link2) = send z (fingerprint i) link1 fits_fp in
    let (n3, t3, e3, link3) = send z sig link2 fits_sig in
    (flush t3, rw (e1, signed, e2, e3) refl, flush-Link z link3)

-- The side that set a challenge goes on with the fingerprint that is proven.
pub read_fingerprint_with_challenge-Link :
    (z : Zstd) (c : Scheme) {d : Conn} {ins outs : List Bytes} (r fp sig : Bytes)
    → Link z d (fp ∷ sig ∷ ins) outs
    → Fits z r
    → Fits z fp
    → Fits z sig
    → proven z c r fp sig ≡ ok fp
    → (t : Conn) × (read_fingerprint_with_challenge z c r d ≡ (ok fp, t))
      × Link z t ins (outs ++ (r ∷ []))
unfolding read_fingerprint_with_challenge write_random read_proof read_string
read_fingerprint_with_challenge-Link z c r fp sig link fits_r fits_fp fits_sig proof =
    let (n, t1, e1, link1) = send z r link fits_r in
    let (t2, e2, link2) = receive z fp (flush-Link z link1) fits_fp in
    let (t, e, link') = receive z sig link2 fits_sig in (t, rw (e1, e2, e, proof) refl, link')
