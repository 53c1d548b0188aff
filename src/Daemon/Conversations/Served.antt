-- ===== src/Daemon/Conversations/Served.antt =====
-- What a member that keeps to the protocol is answered, and what becomes of what it sends:
-- `convClientHandler` on a connection where all of it arrives.
use onionmsg.Base.{
  ◌≡◌, refl, ap, ◌∙◌, true, Bool-cases, inl, inr, List, [], ◌∷◌, ◌++◌, map, none, some, Bytes, ok,
  codes, All, append_assoc, arith,
}
use onionmsg.Ed25519.{Scheme}
use onionmsg.Message.{Marshal, Message, sig_is_valid}
use onionmsg.Room.{Room, peer_by_fingerprint}
use onionmsg.Identity.{Identity}
use onionmsg.Push.{push_messages}
use onionmsg.Conn.{Conn, Zstd, write_struct}
use onionmsg.Conn.Channel.{Link, Fits, Fits-short, receive, send, flush-Link}
use onionmsg.Handshake.{proven}
use onionmsg.Handshake.Posts.{post-Wire, post_now-Link, read_fingerprint_with_challenge-Link}
use onionmsg.Daemon.Slices.{write_first}
use onionmsg.Daemon.State.{
  Daemon, has_id, get_room, notify_new_messages, call_hook, emit, messages_arrived,
}
use onionmsg.Daemon.Session.{Session}
use onionmsg.Daemon.Conversations.{
  Formats, read_slice, read_blobs, first_invalid, push_into, announce, take_messages,
  check_messages, serve_member, admit_to, admit, identified, conv_client_handler,
}
use onionmsg.Daemon.Conversations.Transfer.{Sent, carried, acks, store, CanSend, read_each-reads}

-- What the member says, and what it is answered.
abbrev pub saying : (fp sig id msgs ids : Bytes) → List Sent → List Bytes
saying fp sig id msgs ids files = fp ∷ sig ∷ id ∷ msgs ∷ ids ∷ carried files

abbrev pub answering : (challenge times : Bytes) → List Sent → List Bytes
answering challenge times files =
    challenge
    ∷ codes "auth_ok"
    ∷ times
    ∷ codes "messages_ok"
    ∷ (acks files ++ (codes "sync_ok" ∷ []))

module _ (z : Zstd) (f : Formats) (c : Scheme) (j : Marshal) where
  first_invalid-none :
      (ms : List Message)
      → All (λ m. sig_is_valid c j m ≡ ok true) ms
      → first_invalid z f c j ms ≡ ok none
  unfolding first_invalid
  first_invalid-none [] h = refl
  first_invalid-none (m ∷ ms) h = rw (h.0, first_invalid) (first_invalid-none ms h.1)

  announce-ok :
      (id : Bytes) (ms : List Message) (d : Daemon)
      → (t : Daemon) × (announce z f c j id ms d ≡ ok t) × (t.rooms ≡ d.rooms)
  unfolding notify_new_messages call_hook emit
  announce-ok id [] d = (d, refl, refl)
  announce-ok id (m ∷ ms) d = elim (Bool-cases d.hooks.new_message) [
    | inl e ↦ (emit (messages_arrived id (m ∷ ms)) d, rw e refl, refl)
    | inr e ↦ (d, rw e refl, refl)
  ]

  read_blobs-reads :
      (ids : Bytes) (files : List Sent) (ins outs : List Bytes) (s : Session)
      → Link z s.conn (ids ∷ (carried files ++ ins)) outs
      → Fits z ids
      → f.ids_of ids ≡ map (λ (id, bs). id) files
      → All (CanSend z f) files
      → (d : Conn) × (read_blobs z f s
          ≡ (ok tt, record s { conn = d; blobs = store files s.blobs }))
        × Link z d ins (outs ++ acks files)
  unfolding read_blobs read_slice
  read_blobs-reads ids files ins outs s link fits named can =
      let (d1, e1, link1) = receive z ids link fits in
      let (d, e, link') = read_each-reads z f files ins outs (record s { conn = d1 }) link1 can in
      (d, rw (e1, named) e, link')

  -- The end of a conversation that went well.
  pub record Served (id : Bytes) (pushed : Room) (files : List Sent) (ins outs : List Bytes)
      (s t : Session) : Type 0 where
    pub link : Link z t.conn ins outs
    pub rooms : t.daemon.rooms ≡ write_first (has_id id) pushed s.daemon.rooms
    pub blobs : t.blobs ≡ store files s.blobs

  module _ (id : Bytes) (r : Room) (ms : List Message) (push : (push_messages ms r).0 ≡ ok tt)
      (valid : All (λ m. sig_is_valid c j m ≡ ok true) ms) (ids : Bytes) (files : List Sent)
      (fits : Fits z ids) (named : f.ids_of ids ≡ map (λ (id, bs). id) files)
      (can : All (CanSend z f) files) where
    take_messages-serves :
        (ins outs : List Bytes) (s : Session)
        → Link z s.conn (ids ∷ (carried files ++ ins)) outs
        → (t : Session) × (take_messages z f c j id r ms s ≡ (ok tt, t))
          × Served id
              (push_messages ms r).1
              files
              ins
              (outs ++ (codes "messages_ok" ∷ (acks files ++ (codes "sync_ok" ∷ []))))
              s
              t
    unfolding take_messages push_into
    take_messages-serves ins outs s link =
        let (d1, e1, link1) =
          post_now-Link z (codes "messages_ok") link
            (Fits-short z (codes "messages_ok") (omega arith)) in
        let (d2, e2, link2) =
          read_blobs-reads ids files ins (outs ++ (codes "messages_ok" ∷ []))
            (record s { conn = d1 }) link1 fits named can in
        let (a, e3, rooms) = announce-ok id ms (record s.daemon {
          rooms = write_first (has_id id) (push_messages ms r).1 s.daemon.rooms;
        }) in
        let (d, e4, link') =
          post_now-Link z (codes "sync_ok") link2 (Fits-short z (codes "sync_ok") (omega arith)) in
        (
          record s { conn = d; daemon = a; blobs = store files s.blobs },
          rw (e1, e2, push, e3, e4) refl,
          record {
            link =
                rw
                  (
                    append_assoc (outs ++ (codes "messages_ok" ∷ [])) (acks files)
                        (codes "sync_ok" ∷ []),
                    append_assoc outs (codes "messages_ok" ∷ [])
                        (acks files ++ (codes "sync_ok" ∷ [])),
                  )
                  at link';
            rooms = rooms;
            blobs = refl;
          },
        )

    check_messages-serves :
        (ins outs : List Bytes) (s : Session)
        → Link z s.conn (ids ∷ (carried files ++ ins)) outs
        → (t : Session) × (check_messages z f c j id r ms s ≡ (ok tt, t))
          × Served id
              (push_messages ms r).1
              files
              ins
              (outs ++ (codes "messages_ok" ∷ (acks files ++ (codes "sync_ok" ∷ []))))
              s
              t
    unfolding check_messages
    check_messages-serves ins outs s link =
        let (t, e, served) = take_messages-serves ins outs s link in
        (t, rw (check_messages, first_invalid-none ms valid) e, served)

    serve_member-serves :
        (times msgs : Bytes) (ins outs : List Bytes) (s : Session)
        → Link z s.conn (msgs ∷ ids ∷ (carried files ++ ins)) outs
        → f.times r.sync_state ≡ some times
        → Fits z times
        → f.messages_of msgs ≡ ms
        → Fits z msgs
        → (t : Session) × (serve_member z f c j id r s ≡ (ok tt, t))
          × Served id
              (push_messages ms r).1
              files
              ins
              (outs
                ++ (codes "auth_ok"
                    ∷ times
                    ∷ codes "messages_ok"
                    ∷ (acks files ++ (codes "sync_ok" ∷ []))))
              s
              t
    unfolding serve_member read_slice write_struct check_messages
    serve_member-serves times msgs ins outs s link encoded fits_times decoded fits_msgs =
        let rest : List Bytes = codes "messages_ok" ∷ (acks files ++ (codes "sync_ok" ∷ [])) in
        let (d1, e1, link1) =
          post-Wire z (codes "auth_ok") link (Fits-short z (codes "auth_ok") (omega arith)) in
        let (n, d2, e2, link2) = send z times link1 fits_times in
        let (d3, e3, link3) = receive z msgs (flush-Link z link2) fits_msgs in
        let (t, e, served) =
          check_messages-serves ins (outs ++ (codes "auth_ok" ∷ times ∷ []))
            (record s { conn = d3 }) link3 in
        let e2' : write_struct z f.times r.sync_state d1 ≡ (ok n, d2) =
          rw (write_struct, encoded) e2 in
        (
          t,
          rw (e1, e2', e3)
              (ap (λ k. check_messages z f c j id r k (record s { conn = d3 })) decoded ∙ e),
          record {
            link = rw (append_assoc outs (codes "auth_ok" ∷ times ∷ []) rest) at served.link;
            rooms = served.rooms;
            blobs = served.blobs;
          },
        )

  -- A member that keeps to the protocol is served. Let nothing be said yet, and the frames of what
  -- the member says, and perhaps more, arrive in any pieces that are not empty and cut no header of
  -- four bytes. Suppose that the fingerprint and the signature that arrive prove the challenge,
  -- that the id that arrives is that of a room of the daemon of which the fingerprint is a peer,
  -- that the room's times are encoded, that the messages are all valid and can be pushed, that the
  -- ids are those of the files whose blocks follow, each with a count of blocks below 2 ^ 32 and a
  -- file that can be opened, and that no message of the two sides is too large. Then the handler
  -- ends without an error, its challenge, its times and all its acknowledgements having been sent,
  -- with nothing left in its buffer, with the messages pushed into the room and the files stored.
  pub conv_client_handler-serves :
      (challenge fp sig id raw times msgs ids : Bytes) (r : Room) (i : Identity) (ms : List Message)
      (files : List Sent) (ins : List Bytes) (s : Session)
      → Link z s.conn (saying fp sig raw msgs ids files ++ ins) []
      → All (Fits z) (challenge ∷ fp ∷ sig ∷ raw ∷ times ∷ msgs ∷ ids ∷ [])
      → proven z c challenge fp sig ≡ ok fp
      → f.from_bytes raw ≡ some id
      → get_room id s.daemon ≡ some r
      → peer_by_fingerprint r fp ≡ some i
      → f.times r.sync_state ≡ some times
      → f.messages_of msgs ≡ ms
      → All (λ m. sig_is_valid c j m ≡ ok true) ms
      → (push_messages ms r).0 ≡ ok tt
      → f.ids_of ids ≡ map (λ (id, bs). id) files
      → All (CanSend z f) files
      → (t : Session) × (conv_client_handler z f c j challenge s ≡ (ok tt, t))
        × Served id (push_messages ms r).1 files ins (answering challenge times files) s t
  unfolding conv_client_handler identified admit admit_to
  conv_client_handler-serves challenge fp sig id raw times msgs ids r i ms files ins s link
        (
          fits_challenge,
          (fits_fp, (fits_sig, (fits_raw, (fits_times, (fits_msgs, (fits_ids, u)))))),
        )
        proof parsed room member encoded decoded valid push named can =
      let (d1, e1, link1) =
        read_fingerprint_with_challenge-Link z c challenge fp sig link fits_challenge fits_fp
          fits_sig proof in
      let (d2, e2, link2) = receive z raw link1 fits_raw in
      let (t, e, served) =
        serve_member-serves id r ms push valid ids files fits_ids named can times msgs ins
          (challenge ∷ []) (record s { conn = d2 }) link2 encoded fits_times decoded fits_msgs in
      (
        t,
        rw (e1, e2, parsed, room, admit_to, member) e,
        record { link = served.link; rooms = served.rooms; blobs = served.blobs },
      )
