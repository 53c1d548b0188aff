-- ===== src/Daemon/Conversations/Members.antt =====
-- Who can change a room over a connection.
use onionmsg.Base.{
  ◌≡◌, refl, ap, ◌∙◌, ◌⊎◌, inl, inr, true, false, List, [], ◌∷◌, none, some, Option, Bytes, Outcome,
  ok, err, panic, codes, All, arith, length, Outcome-cases, Bool-cases,
}
use onionmsg.Exec.{Exec, done, modify, try_modify, ◌>>=◌, ◌>>◌}
use onionmsg.Ed25519.{Scheme}
use onionmsg.Identity.{Identity}
use onionmsg.Message.{Marshal, Message, sig_is_valid}
use onionmsg.Room.{Room, peer_by_fingerprint}
use onionmsg.Push.{push_messages}
use onionmsg.Conn.{Zstd, write_struct, read_bytes, flush}
use onionmsg.Handshake.{attempt, read_fingerprint_with_challenge}
use onionmsg.Handshake.Challenge.{Proves, read_fingerprint_with_challenge-Proves}
use onionmsg.Daemon.Slices.{write_first}
use onionmsg.Daemon.State.{Daemon, has_id, get_room, notify_new_messages, call_hook, emit}
use onionmsg.Daemon.Session.{Session, on_conn, on_daemon, catch}
use onionmsg.Daemon.Conversations.{
  Formats, say, say_now, read_slice, read_blobs, first_invalid, push_into, announce, take_messages,
  check_messages, serve_member, admit_to, admit, room_named, identified, conv_client_handler,
}
use onionmsg.Daemon.Conversations.Blobs.{resume-lem, catch-lem, read_blobs-Keeps}

module _ (z : Zstd) (f : Formats) where
  module _ (c : Scheme) (j : Marshal) where
    -- What was admitted: a challenge that was met by a fingerprint, a room of the daemon that has a
    -- peer of that fingerprint, and messages that are all valid, which are pushed into that room.
    pub record Admitted (challenge : Bytes) (d t : Daemon) : Type 0 where
      pub fp : Bytes
      pub id : Bytes
      pub room : Room
      pub peer : Identity
      pub messages : List Message
      pub proof : Proves c challenge fp
      pub found : get_room id d ≡ some room
      pub member : peer_by_fingerprint room fp ≡ some peer
      pub valid : All (λ m. sig_is_valid c j m ≡ ok true) messages
      pub rooms : t.rooms ≡ write_first (has_id id) (push_messages messages room).1 d.rooms
      pub contact_identities : t.contact_identities ≡ d.contact_identities
      pub requests : t.requests ≡ d.requests
      pub onions : t.onions ≡ d.onions

    abbrev pub OnlyMembers : Bytes → Daemon → Session → Type 0
    OnlyMembers challenge d t = (t.daemon ≡ d) ⊎ Admitted challenge d t.daemon

    first_invalid-valid :
        (ms : List Message)
        → first_invalid z f c j ms ≡ ok none
        → All (λ m. sig_is_valid c j m ≡ ok true) ms
    unfolding first_invalid
    first_invalid-valid [] h = tt
    first_invalid-valid (m ∷ ms) h = elim (Outcome-cases (sig_is_valid c j m)) [
      | inl (true, e) ↦ (e, first_invalid-valid ms (ground arith))
      | inl (false, e) ↦ absurd (ground arith)
      | inr (inl (g, e)) ↦ absurd (ground arith)
      | inr (inr e) ↦ absurd (ground arith)
    ]

    announce-keeps :
        (id : Bytes) (ms : List Message) (d : Daemon)
        → let t : Daemon = (try_modify (announce z f c j id ms) d).1 in
          (t.rooms ≡ d.rooms)
          × (t.contact_identities ≡ d.contact_identities)
          × (t.requests ≡ d.requests)
          × (t.onions ≡ d.onions)
    unfolding notify_new_messages call_hook emit
    announce-keeps id [] d = (refl, refl, refl, refl)
    announce-keeps id (m ∷ ms) d = elim (Bool-cases d.hooks.new_message) [
      | inl set ↦ rw set (refl, refl, refl, refl)
      | inr nil ↦ rw nil (refl, refl, refl, refl)
    ]

    module _ (challenge fp id : Bytes) (r : Room) (i : Identity) (d : Daemon)
        (proof : Proves c challenge fp) (found : get_room id d ≡ some r)
        (member : peer_by_fingerprint r fp ≡ some i) where
      pushed :
          (ms : List Message) (s : Daemon)
          → All (λ m. sig_is_valid c j m ≡ ok true) ms
          → s ≡ d
          → Admitted challenge d (push_into z f c j id r ms s).1
      unfolding push_into
      pushed ms s valid e = record {
        fp = fp;
        id = id;
        room = r;
        peer = i;
        messages = ms;
        proof = proof;
        found = found;
        member = member;
        valid = valid;
        rooms = ap (λ x. write_first (has_id id) (push_messages ms r).1 x.rooms) e;
        contact_identities = ap (λ x. x.contact_identities) e;
        requests = ap (λ x. x.requests) e;
        onions = ap (λ x. x.onions) e;
      }

      announced :
          (ms : List Message) (s : Daemon)
          → Admitted challenge d s
          → Admitted challenge d (try_modify (announce z f c j id ms) s).1
      announced ms s a =
          let (rooms, contacts, requests, onions) = announce-keeps id ms s in
          record {
            fp = a.fp;
            id = a.id;
            room = a.room;
            peer = a.peer;
            messages = a.messages;
            proof = a.proof;
            found = a.found;
            member = a.member;
            valid = a.valid;
            rooms = rooms ∙ a.rooms;
            contact_identities = contacts ∙ a.contact_identities;
            requests = requests ∙ a.requests;
            onions = onions ∙ a.onions;
          }

      take_messages-OnlyMembers :
          (ms : List Message) (s : Session)
          → All (λ m. sig_is_valid c j m ≡ ok true) ms
          → s.daemon ≡ d
          → OnlyMembers challenge d (take_messages z f c j id r ms s).1
      unfolding take_messages
      take_messages-OnlyMembers ms s valid e =
          let P : Session → Type 0 = OnlyMembers challenge d in
          let last : Exec Session (Unit {0}) = say_now z f (codes "sync_ok") in
          let tell : Exec Session (Unit {0}) = on_daemon (try_modify (announce z f c j id ms)) in
          let push : Exec Session (Unit {0}) = on_daemon (push_into z f c j id r ms) in
          let blobs : Exec Session (Unit {0}) = catch (read_blobs z f) done (λ u. done) in
          let first : Session = (say_now z f (codes "messages_ok") s).1 in
          let after_blobs : (blobs first).1.daemon ≡ d =
            catch-lem (λ t. t.daemon ≡ d) (read_blobs z f) done (λ u. done) first
              (read_blobs-Keeps z f first ∙ e) (read_blobs-Keeps z f first ∙ e)
              (λ u h. read_blobs-Keeps z f first ∙ e) in
          resume-lem P (say_now z f (codes "messages_ok") s).0 (λ u. do blobs; push; tell; last)
            first (inl e)
            (λ u _.
              resume-lem P (blobs first).0 (λ u. do push; tell; last) (blobs first).1
                (inl after_blobs)
                (λ u _.
                  let s1 : Session = (push (blobs first).1).1 in
                  let a1 : Admitted challenge d s1.daemon =
                    pushed ms (blobs first).1.daemon valid after_blobs in
                  resume-lem P (push (blobs first).1).0 (λ u. do tell; last) s1 (inr a1)
                    (λ u _.
                      let a2 : Admitted challenge d (tell s1).1.daemon =
                        announced ms s1.daemon a1 in
                      resume-lem P (tell s1).0 (λ u. last) (tell s1).1 (inr a2) (λ u _. inr a2))))

      check_messages-OnlyMembers :
          (ms : List Message) (s : Session)
          → s.daemon ≡ d
          → OnlyMembers challenge d (check_messages z f c j id r ms s).1
      unfolding check_messages
      check_messages-OnlyMembers ms s e = go (first_invalid z f c j ms) refl
        where
          go :
              (o : Outcome (Option Message))
              → first_invalid z f c j ms ≡ o
              → OnlyMembers challenge d (check_messages z f c j id r ms s).1
          go (ok none) h =
              rw (h, check_messages) (take_messages-OnlyMembers ms s (first_invalid-valid ms h) e)
          go (ok (some m)) h = rw (h, check_messages) (inl e)
          go (err g) h = rw (h, check_messages) (inl e)
          go panic h = rw (h, check_messages) (inl e)

      serve_member-OnlyMembers :
          (s : Session) → s.daemon ≡ d → OnlyMembers challenge d (serve_member z f c j id r s).1
      unfolding serve_member read_slice
      serve_member-OnlyMembers s e =
          let P : Session → Type 0 = OnlyMembers challenge d in
          let check : List Message → Exec Session (Unit {0}) = check_messages z f c j id r in
          let times : Exec Session (Unit {0}) =
            on_conn (attempt (write_struct z f.times r.sync_state)) in
          let read : Exec Session (List Message) = read_slice z f f.messages_of in
          let s1 : Session = (say z f (codes "auth_ok") s).1 in
          let s2 : Session = (times s1).1 in
          let s3 : Session = (on_conn (modify flush) s2).1 in
          resume-lem P (say z f (codes "auth_ok") s).0
            (λ u. do times; on_conn (modify flush); ms ← read; check ms) s1 (inl e)
            (λ u _.
              resume-lem P (times s1).0 (λ u. do on_conn (modify flush); ms ← read; check ms) s2
                (inl e)
                (λ u _.
                  resume-lem P (read s3).0 check (read s3).1 (inl e)
                    (λ ms _. check_messages-OnlyMembers ms (read s3).1 e)))

    admit-OnlyMembers :
        (challenge fp : Bytes) (named : Option Bytes) (s : Session)
        → Proves c challenge fp
        → OnlyMembers challenge s.daemon (admit z f c j fp named s).1
    unfolding admit admit_to
    admit-OnlyMembers challenge fp none s proof = inl refl
    admit-OnlyMembers challenge fp (some id) s proof = go (get_room id s.daemon) refl
      where
        at_room :
            (r : Room)
            → get_room id s.daemon ≡ some r
            → (o : Option Identity) → peer_by_fingerprint r fp ≡ o
            → OnlyMembers challenge s.daemon (admit_to z f c j fp id (some r) s).1
        at_room r found none h = rw (h, admit_to) (inl refl)
        at_room r found (some i) h =
            rw (h, admit_to)
              (serve_member-OnlyMembers challenge fp id r i s.daemon proof found h s refl)

        go :
            (o : Option Room)
            → get_room id s.daemon ≡ o
            → OnlyMembers challenge s.daemon (admit z f c j fp (some id) s).1
        go none h = rw (h, admit) (inl refl)
        go (some r) h = rw (h, admit) (at_room r h (peer_by_fingerprint r fp) refl)

    -- Whatever bytes a remote side sends after a challenge of 32 bytes, and however the connection
    -- ends: the daemon is as it was, or the challenge was met by the fingerprint of a peer of one of
    -- its rooms, the messages that were sent are all valid, that room got them pushed, and the other
    -- rooms, the contact identities, the requests and the hidden services are as they were.
    pub conv_client_handler-OnlyMembers :
        (challenge : Bytes) (s : Session)
        → length challenge ≡ 32
        → OnlyMembers challenge s.daemon (conv_client_handler z f c j challenge s).1
    unfolding conv_client_handler identified
    conv_client_handler-OnlyMembers challenge s size =
        let P : Session → Type 0 = OnlyMembers challenge s.daemon in
        let prove : Exec Session Bytes = on_conn (read_fingerprint_with_challenge z c challenge) in
        catch-lem P prove (say z f (codes "auth_failed")) (identified z f c j) s (inl refl)
          (inl refl)
          (λ fp h.
            let s1 : Session = (prove s).1 in
            let proof : Proves c challenge fp =
              read_fingerprint_with_challenge-Proves z c challenge s.conn s1.conn fp size
                (λ k. (h k, s1.conn)) in
            catch-lem P (on_conn (read_bytes z)) done (room_named z f c j fp) s1 (inl refl)
              (inl refl)
              (λ raw _.
                admit-OnlyMembers challenge fp (f.from_bytes raw) (on_conn (read_bytes z) s1).1
                  proof))
