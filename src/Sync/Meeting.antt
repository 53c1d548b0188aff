-- ===== src/Sync/Meeting.antt =====
-- The two ends of a conversation together: `syncMsgs` of internal/types/messaging_peer.go over what
-- `convClientHandler` of internal/daemon/conversation_handler.go answers, and the other way round.
use onionmsg.Base.{
  ◌≡◌, ◌≢◌, ◌≤◌, ◌<◌, ◌^◌, refl, ap, sym, ◌∙◌, true, List, [], ◌∷◌, ◌++◌, map, some, Bytes, ok,
  length, All, All-map, append-nil, arith, same,
}
use onionmsg.Ed25519.{Scheme}
use onionmsg.Identity.{Identity, IdentityType, remote, new_identity, fingerprint, sign}
use onionmsg.Identity.Keys.{new_identity_keys, sign_lem}
use onionmsg.Message.{Message, Marshal, sig_is_valid}
use onionmsg.Peer.{find_messages_to_sync}
use onionmsg.Room.{Room, peer_by_fingerprint}
use onionmsg.Command.NoPanic.{IsReady}
use onionmsg.Push.{push_messages}
use onionmsg.Push.Clock.{Ascending, Noted, sender, time}
use onionmsg.Push.Delivery.{Lacking, push_messages-delivers}
use onionmsg.Push.Batch.{push_locked-lem}
use onionmsg.SyncMap.{copy_sync_map}
use onionmsg.Daemon.Slices.Laws.{find_first-write_first, find_first-match}
use onionmsg.Conn.{Conn, Zstd}
use onionmsg.Conn.Channel.{Link, Fits, Fits-short, Link-sent}
use onionmsg.Conn.Stream.{joined}
use onionmsg.Handshake.Challenge.{proven-honest}
use onionmsg.Daemon.State.{has_id, get_room}
use onionmsg.Daemon.Session.{Session, Blobs}
use onionmsg.Daemon.Conversations.{Formats, conv_client_handler}
use onionmsg.Daemon.Conversations.Transfer.{CanSend}
use onionmsg.Daemon.Conversations.Served.{saying, answering, conv_client_handler-serves}
use onionmsg.Sync.{Encodings, converse, blob_ids_from_messages}
use onionmsg.Sync.Blocks.{blocks, joined-blocks}
use onionmsg.Sync.Sends.{cut, Holds}
use onionmsg.Sync.Converse.{converse-syncs}
use onionmsg.Sync.Stored.{AreNew, store-Holds}

-- What is left of a file's demands: few enough blocks, and that the other side can open its file.
abbrev pub CanStore : Formats → Bytes × Bytes → Type 0
CanStore g (id, file) = (length (blocks file) < 2 ^ 32) × (g.can_open id ≡ true)

module _ (z : Zstd) (f : Encodings) (g : Formats) where
  pub cut-CanSend :
      (sent : List (Bytes × Bytes)) → All (CanStore g) sent → All (CanSend z g) (map cut sent)
  cut-CanSend [] h = tt
  cut-CanSend ((id, file) ∷ sent) h = (
    (
      All-map (λ b. length b ≤ 2 ^ 19) (Fits z) (blocks file)
          (λ b short. Fits-short z b (omega arith)) (joined-blocks file).1,
      h.0.0,
      h.0.1,
    ),
    cut-CanSend sent h.1,
  )

  cut_ids :
      (sent : List (Bytes × Bytes)) → map (λ (id, bs). id) (map cut sent) ≡ map (λ (id, b). id) sent
  cut_ids [] = refl
  cut_ids ((id, b) ∷ sent) = ap (◌∷◌ id) (cut_ids sent)

  -- A conversation delivers. The calling side holds a generated key and has its messages in the
  -- order of their times, sender by sender; the serving side has the room, ready, with the caller's
  -- fingerprint among its peers. The messages that the caller picks for the other's times are
  -- valid, and what one side encodes the other decodes. The files of their blobs are there, the
  -- other side can open files for their ids, which are new to it and differ, each has fewer than 2
  -- ^ 32 blocks, and no other message of the two is too large. When to each side, on a connection
  -- on which nothing was said yet, the frames of what the other says arrive, in any pieces that are
  -- not empty and cut no header of four bytes, both end without an error, and what each has sent
  -- is, byte for byte, what arrived at the other, with nothing left in its buffer. The messages
  -- picked are those for whose sender the serving side had noted no time or an earlier one; its
  -- room has them after its own, in their order, and has noted for every message of the caller a
  -- time of its sender that is not earlier, and it holds every file of the caller's blobs, byte for
  -- byte.
  pub meeting-delivers :
      (c : Scheme) (j : Marshal) (a b : Room) (i : Identity)
      (key fp challenge times msgs ids : Bytes) (t : IdentityType) (files : Blobs)
      (sent : List (Bytes × Bytes)) (d : Conn) (s : Session)
      → let picked = find_messages_to_sync a.messages b.sync_state in
        let own = fingerprint a.self in
        let named = map (λ (id, b). id) sent in
        c.is_key key ≡ true
        → t ≢ remote
        → new_identity t key fp ≡ ok a.self
        → Ascending a.messages
        → All (λ m. sig_is_valid c j m ≡ ok true) picked
        → blob_ids_from_messages picked ≡ named
        → All (Holds files) sent
        → All (CanStore g) sent
        → AreNew sent s.blobs
        → IsReady b
        → get_room a.id s.daemon ≡ some b
        → peer_by_fingerprint b own ≡ some i
        → g.from_bytes a.id ≡ some a.id
        → (g.times b.sync_state ≡ some times) × (f.times_of times ≡ some b.sync_state)
        → (f.messages picked ≡ some msgs) × (g.messages_of msgs ≡ picked)
        → (f.ids named ≡ some ids) × (g.ids_of ids ≡ named)
        → All
            (Fits z)
            (challenge ∷ own ∷ c.sign_bytes key challenge ∷ a.id ∷ times ∷ msgs ∷ ids ∷ [])
        → Link z d (answering challenge times (map cut sent)) []
        → Link z s.conn (saying own (c.sign_bytes key challenge) a.id msgs ids (map cut sent)) []
        → (e : Conn) × (u : Session) × (w : Room) × (converse z f files c a d ≡ (ok tt, e))
          × (conv_client_handler z g c j challenge s ≡ (ok tt, u))
          × ((e.sent ≡ joined s.conn.arrived) × (e.buffered ≡ []))
          × ((u.conn.sent ≡ joined d.arrived) × (u.conn.buffered ≡ []))
          × (get_room a.id u.daemon ≡ some w)
          × Lacking b.sync_state a.messages picked
          × (w.messages ≡ b.messages ++ picked)
          × All (λ m. Noted w.sync_state (sender m) (time m)) a.messages
          × All (Holds u.blobs) sent
  unfolding sign get_room push_messages
  meeting-delivers c j a b i key fp challenge times msgs ids t files sent d s generated ne made asc
        valid blobs holds can new ready room member id_is (times_out, times_in) (msgs_out, msgs_in)
        (ids_out, ids_in) fits link_d link_s =
      let picked : List Message = find_messages_to_sync a.messages b.sync_state in
      let sig : Bytes = c.sign_bytes key challenge in
      let signed : sign c a.self challenge ≡ ok sig =
        rw (new_identity_keys c key generated t fp ne made).0
          (sign_lem c key generated challenge) in
      let (lack, o, messages, noted, _, _) = push_messages-delivers a b asc ready in
      let (_, _, _, id_kept, _) = push_locked-lem (copy_sync_map b.sync_state) picked b ready in
      let kept : has_id a.id (push_messages picked b).1 ≡ true =
        ap (λ id. same id a.id) id_kept ∙ find_first-match (has_id a.id) s.daemon.rooms b room in
      let (e, e_is, link_e) =
        converse-syncs z f files c a challenge sig times msgs ids b.sync_state sent [] d
          (rw append-nil link_d) fits signed times_in msgs_out blobs ids_out holds in
      let (u, u_is, served) =
        conv_client_handler-serves z g c j challenge (fingerprint a.self) sig a.id a.id times msgs
          ids b i picked (map cut sent) [] s (rw append-nil link_s) fits
          (proven-honest z c challenge key fp t a.self generated ne made) id_is room member
          times_out msgs_in valid o (ids_in ∙ sym (cut_ids sent)) (cut-CanSend sent can) in
      let said = Link-sent link_e in
      let answered = Link-sent served.link in
      (
        e,
        u,
        (push_messages picked b).1,
        e_is,
        u_is,
        (said.0 ∙ sym link_s.incoming, said.1),
        (answered.0 ∙ sym link_d.incoming, answered.1),
        rw served.rooms (
            find_first-write_first (has_id a.id) s.daemon.rooms b (push_messages picked b).1 room
              kept),
        lack,
        messages,
        noted,
        rw served.blobs (store-Holds sent s.blobs new),
      )
