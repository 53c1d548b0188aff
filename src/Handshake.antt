-- ===== src/Handshake.antt =====
-- The challenge by which a remote side proves its fingerprint: `fingerprintChallenge` and
-- `expectResponse` of internal/types/util.go, `writeRandom` and `readFingerprintWithChallenge` of
-- internal/daemon/conversation_handler.go.
pub mod Challenge
pub mod Posts
use onionmsg.Base.{
  Bool, true, false, if◌then◌else◌, [], none, some, Option, Bytes, same, Outcome, ok, err, panic,
  unexpected_response, challenge_failed,
}
use onionmsg.Base64.{decode}
use onionmsg.Exec.{Exec, done, raise, lift, modify, resume, ◌>>=◌, ◌>>◌}
use onionmsg.Ed25519
use onionmsg.Ed25519.{Scheme}
use onionmsg.Identity.{Identity, sign, fingerprint}
use onionmsg.Conn.{Conn, Zstd, read_string, read_bytes, write_string, write_bytes, flush}

-- A call whose error is dropped.
abbrev pub drop_error : {S A : Type 0} → A → Outcome A → Exec S A
drop_error a (ok b) s = (ok b, s)
drop_error a (err e) s = (ok a, s)
drop_error a panic s = (panic, s)

abbrev pub dropped : {A : Type 0} → Outcome A → Outcome (Unit {0})
dropped (ok a) = ok tt
dropped (err e) = ok tt
dropped panic = panic

abbrev pub attempt : {S A : Type 0} → Exec S A → Exec S (Unit {0})
attempt m s = let (o, t) = m s in (dropped o, t)

module _ (z : Zstd) where
  -- `conn.WriteString(s)`, whose error is dropped, and the same with a flush.
  unfoldable pub post : Bytes → Exec Conn (Unit {0})
  post s = attempt (write_string z s)

  unfoldable pub post_now : Bytes → Exec Conn (Unit {0})
  post_now s = do post s; modify flush

  unfoldable pub expect_response : Bytes → Exec Conn (Unit {0})
  expect_response expected = do
    resp ← read_string z
    if same resp expected then done else raise (unexpected_response resp expected)

  -- `r` is what `rand.Read` makes.
  unfoldable pub write_random : Bytes → Exec Conn Bytes
  write_random r = do n ← write_bytes z r; modify flush; lift (ok r)

  module _ (c : Scheme) where
    -- An error of `Sign` is printed and an empty signature is sent.
    unfoldable pub fingerprint_challenge : Identity → Exec Conn (Unit {0})
    fingerprint_challenge id = do
      challenge ← read_bytes z
      signed ← drop_error [] (sign c id challenge)
      attempt (write_string z (fingerprint id))
      attempt (write_bytes z signed)
      modify flush

    -- The decision on what was read.
    unfoldable pub proven : Bytes → Bytes → Bytes → Outcome Bytes
    proven challenge fp sig = elim (decode fp) [
      | err e ↦ err e
      | panic ↦ panic
      | ok key ↦ elim (Ed25519.verify c key challenge sig) [
        | ok v ↦ if v then ok fp else err challenge_failed
        | err e ↦ err e
        | panic ↦ panic
      ]
    ]

    -- What follows the challenge.
    unfoldable pub read_proof : Bytes → Exec Conn Bytes
    read_proof challenge = do fp ← read_string z; sig ← read_bytes z; lift (proven challenge fp sig)

    -- An error of `writeRandom` is dropped, and the challenge is then empty.
    unfoldable pub read_fingerprint_with_challenge : Bytes → Exec Conn Bytes
    read_fingerprint_with_challenge r s =
        let (o, t) = write_random r s in (do challenge ← drop_error [] o; read_proof challenge) t
