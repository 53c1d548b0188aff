-- ===== src/Sync/Converse.antt =====
-- The calling side against the answers of a side that keeps to the protocol: `syncMsgs` of
-- internal/types/messaging_peer.go.
use onionmsg.Base.{
  Option, ◌≡◌, refl, List, [], ◌∷◌, ◌++◌, map, some, Bytes, ok, codes, All, append_assoc, arith,
}
use onionmsg.Ed25519.{Scheme}
use onionmsg.Identity.{fingerprint, sign}
use onionmsg.SyncMap.{SyncMap}
use onionmsg.Peer.{find_messages_to_sync}
use onionmsg.Room.{Room}
use onionmsg.Conn.{Conn, Zstd, write_struct, read_struct}
use onionmsg.Conn.Channel.{Link, Fits, Fits-short, receive}
use onionmsg.Handshake.Posts.{expect_response-Link, fingerprint_challenge-Link}
use onionmsg.Daemon.Session.{Blobs}
use onionmsg.Daemon.Conversations.Transfer.{carried, acks}
use onionmsg.Daemon.Conversations.Served.{saying, answering}
use onionmsg.Sync.{Encodings, put, send_blobs, blob_ids_from_messages, converse}
use onionmsg.Sync.Sends.{cut, Holds, put-Link, send_each-sends}

module _ (z : Zstd) (f : Encodings) where
  put_struct-Link :
      {A : Type 0} (encode : A → Option Bytes) (a : A) {d : Conn} {ins outs : List Bytes}
      (m : Bytes)
      → encode a ≡ some m
      → Link z d ins outs
      → Fits z m
      → (t : Conn) × (put (write_struct z encode a) d ≡ (ok tt, t))
        × Link z t ins (outs ++ (m ∷ []))
  unfolding put write_struct
  put_struct-Link encode a m encoded link fits =
      let (t, e, link') = put-Link z m link fits in (t, rw (write_struct, encoded) e, link')

  module _ (files : Blobs) where
    send_blobs-sends :
        (ids : Bytes) (sent : List (Bytes × Bytes)) (ins outs : List Bytes) (d : Conn)
        → Link z d (acks (map cut sent) ++ ins) outs
        → f.ids (map (λ (id, b). id) sent) ≡ some ids
        → Fits z ids
        → All (Holds files) sent
        → (t : Conn) × (send_blobs z f files (map (λ (id, b). id) sent) d ≡ (ok tt, t))
          × Link z t ins (outs ++ (ids ∷ carried (map cut sent)))
    unfolding send_blobs
    send_blobs-sends ids sent ins outs d link encoded fits holds =
        let (t1, e1, link1) =
          put_struct-Link f.ids (map (λ (id, b). id) sent) ids encoded link fits in
        let (t, e, link') = send_each-sends z files sent ins (outs ++ (ids ∷ [])) t1 holds link1 in
        (t, rw e1 e, rw (append_assoc outs (ids ∷ []) (carried (map cut sent))) at link')

    -- The calling side ends without an error against a side that keeps to the protocol. Suppose
    -- that its identity signs the challenge that comes, that the times that come can be read, that
    -- the messages it picks for them and the ids of their blobs are encoded, that the files of the
    -- ids are there, and that no message of the two sides is too large. If nothing was said yet and
    -- what arrives is what a side that serves it answers, and perhaps more, its frames in any
    -- pieces that are not empty and cut no header of four bytes, then it has sent, with nothing
    -- left in its buffer, its fingerprint and signature, the room's id, the messages, the ids and,
    -- for each file, the number of its blocks and the blocks.
    pub converse-syncs :
        (c : Scheme) (r : Room) (challenge sig times msgs ids : Bytes) (remote : SyncMap)
        (sent : List (Bytes × Bytes)) (ins : List Bytes) (d : Conn)
        → Link z d (answering challenge times (map cut sent) ++ ins) []
        → All (Fits z) (challenge ∷ fingerprint r.self ∷ sig ∷ r.id ∷ times ∷ msgs ∷ ids ∷ [])
        → sign c r.self challenge ≡ ok sig
        → f.times_of times ≡ some remote
        → f.messages (find_messages_to_sync r.messages remote) ≡ some msgs
        → blob_ids_from_messages (find_messages_to_sync r.messages remote)
          ≡ map (λ (id, b). id) sent
        → f.ids (map (λ (id, b). id) sent) ≡ some ids
        → All (Holds files) sent
        → (t : Conn) × (converse z f files c r d ≡ (ok tt, t))
          × Link z t ins (saying (fingerprint r.self) sig r.id msgs ids (map cut sent))
    unfolding converse read_struct
    converse-syncs c r challenge sig times msgs ids remote sent ins d link
          (
            fits_challenge,
            (fits_fp, (fits_sig, (fits_id, (fits_times, (fits_msgs, (fits_ids, u)))))),
          )
          signed decoded encoded named encoded_ids holds =
        let rest : List Bytes = codes "sync_ok" ∷ ins in
        let link0 : Link z d
            (challenge
              ∷ codes "auth_ok"
              ∷ times
              ∷ codes "messages_ok"
              ∷ (acks (map cut sent) ++ rest))
            [] =
          rw (append_assoc (acks (map cut sent)) (codes "sync_ok" ∷ []) ins) at link in
        let (t1, e1, link1) =
          fingerprint_challenge-Link z c r.self challenge sig link0 fits_challenge fits_fp fits_sig
            signed in
        let (t2, e2, link2) = put-Link z r.id link1 fits_id in
        let (t3, e3, link3) =
          expect_response-Link z (codes "auth_ok") link2
            (Fits-short z (codes "auth_ok") (omega arith)) in
        let (t4, e4, link4) = receive z times link3 fits_times in
        let (t5, e5, link5) =
          put_struct-Link f.messages (find_messages_to_sync r.messages remote) msgs encoded link4
            fits_msgs in
        let (t6, e6, link6) =
          expect_response-Link z (codes "messages_ok") link5
            (Fits-short z (codes "messages_ok") (omega arith)) in
        let (t7, e7, link7) =
          send_blobs-sends ids sent rest _ t6 link6 encoded_ids fits_ids holds in
        let e7' = rw (← named) at e7 in
        let (t, e, link') =
          expect_response-Link z (codes "sync_ok") link7
            (Fits-short z (codes "sync_ok") (omega arith)) in
        (t, rw (e1, e2, e3, e4, decoded, e5, e6, e7', e) refl, link')
