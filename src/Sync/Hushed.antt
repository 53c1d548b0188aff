-- ===== src/Sync/Hushed.antt =====
-- What the calling side leaves unsent: `syncMsgs` of internal/types/messaging_peer.go against any
-- messages, wherever they break off.
use onionmsg.Base.{
  ℕ, zero, suc, ◌≡◌, refl, true, false, ltb, same, Bool-cases, Option-cases, inl, inr,
  if◌then◌else◌, List, [], ◌∷◌, ◌++◌, Option, none, some, take, drop, length, Bytes, Outcome, ok,
  err, panic, codes, All, unexpected_response, file_error, arith,
}
use onionmsg.Exec.{Exec, raise, done, lift, modify, resume, ◌>>=◌, ◌>>◌}
use onionmsg.Ed25519.{Scheme}
use onionmsg.Identity.{Identity, sign, fingerprint}
use onionmsg.Message.{Message}
use onionmsg.SyncMap.{SyncMap}
use onionmsg.Peer.{find_messages_to_sync}
use onionmsg.Room.{Room}
use onionmsg.Conn.{
  Conn, Zstd, write_bytes, write_string, write_int, write_struct, read_bytes, read_string,
  read_struct, packed, max_msg_size, flush, int_to_bytes,
}
use onionmsg.Conn.RoundTrip.{write_bytes-too_large}
use onionmsg.Conn.Channel.{
  Wire, Link, Fits, frames, receive, send, end_of_input, flush-Link, Link-sent,
}
use onionmsg.Handshake.{attempt, dropped, drop_error, expect_response, fingerprint_challenge}
use onionmsg.Daemon.Session.{Blobs}
use onionmsg.Sync.{
  Encodings, put, file_of, send_blocks, send_file, send_each, send_blobs, blob_ids_from_messages,
  converse,
}
use onionmsg.Sync.Blocks.{blocksize, block_count}

module _ (z : Zstd) where
  -- Whole messages are still to be read, and whole messages were written.
  record Wired (d : Conn) : Type 0 where
    ins : List Bytes
    outs : List Bytes
    waits : List Bytes
    fit : All (Fits z) ins
    wire : Wire z d ins outs waits

  record Clear (d : Conn) : Type 0 where
    ins : List Bytes
    outs : List Bytes
    fit : All (Fits z) ins
    link : Link z d ins outs

  Clear-Wired : {d : Conn} → Clear d → Wired d
  Clear-Wired c = record { ins = c.ins; outs = c.outs; waits = []; fit = c.fit; wire = c.link }

  flush-Clear : {d : Conn} → Wired d → Clear (flush d)
  flush-Clear w = record {
    ins = w.ins;
    outs = w.outs ++ w.waits;
    fit = w.fit;
    link = flush-Link z w.wire;
  }

  Keeps : {A : Type 0} → Exec Conn A → Type 0
  Keeps m = (d : Conn) → Clear d → Clear (m d).1

  Writes : {A : Type 0} → Exec Conn A → Type 0
  Writes w = (d : Conn) → Wired d → (dropped (w d).0 ≡ ok tt) × Wired (w d).1

  module _ {A B : Type 0} where
    resume-Clear :
        (o : Outcome A) (k : A → Exec Conn B)
        → ((a : A) → Keeps (k a))
        → (d : Conn) → Clear d
        → Clear (resume o k d).1
    unfolding Keeps
    resume-Clear (ok a) k hk d c = hk a d c
    resume-Clear (err e) k hk d c = c
    resume-Clear panic k hk d c = c

    bind-Keeps :
        (m : Exec Conn A) (k : A → Exec Conn B)
        → Keeps m
        → ((a : A) → Keeps (k a))
        → Keeps (m >>= k)
    unfolding Keeps
    bind-Keeps m k hm hk d c = resume-Clear (m d).0 k hk (m d).1 (hm d c)

  lift-Keeps : {A : Type 0} (o : Outcome A) → Keeps (lift o)
  unfolding Keeps
  lift-Keeps o d c = c

  write_bytes-Writes : (m : Bytes) → Writes (write_bytes z m)
  unfolding Writes
  write_bytes-Writes m d w = elim (Bool-cases (ltb max_msg_size (length (packed z m).1))) [
    | inl big ↦ rw ((write_bytes-too_large z m d).1 (ground arith)) (refl, w)
    | inr small ↦
        let (n, t, e, wire) = send z m w.wire (ground arith) in
        rw e (
          refl,
          record {
            ins = w.ins;
            outs = w.outs;
            waits = w.waits ++ (m ∷ []);
            fit = w.fit;
            wire = wire;
          },
        )
  ]

  write_struct-Writes :
      {A : Type 0} (encode : A → Option Bytes) (a : A) → Writes (write_struct z encode a)
  unfolding Writes write_struct
  write_struct-Writes encode a d w = elim (Option-cases (encode a)) [
    | inl e ↦ rw (write_struct, e) (refl, w)
    | inr (m, e) ↦ rw (write_struct, e) (write_bytes-Writes m d w)
  ]

  put-Keeps : (w : Exec Conn ℕ) → Writes w → Keeps (put w)
  unfolding Writes Keeps put
  put-Keeps w hw d c = let (e, wired) = hw d (Clear-Wired c) in rw e (flush-Clear wired)

  read_from :
      (ins outs : List Bytes) (d : Conn)
      → All (Fits z) ins
      → Link z d ins outs
      → Clear (read_bytes z d).1
  read_from [] outs d fit link =
      rw (end_of_input z link) (record { ins = []; outs = outs; fit = fit; link = link })
  read_from (m ∷ ins) outs d fit link =
      let (t, e, link') = receive z m link fit.0 in
      rw e (record { ins = ins; outs = outs; fit = fit.1; link = link' })

  read_bytes-Keeps : Keeps (read_bytes z)
  unfolding Keeps
  read_bytes-Keeps d c = read_from c.ins c.outs d c.fit c.link

  expect_response-Keeps : (expected : Bytes) → Keeps (expect_response z expected)
  unfolding expect_response read_string
  expect_response-Keeps expected = bind-Keeps (read_bytes z) _ read_bytes-Keeps λ resp.
      elim (same resp expected)
        as (λ b. Keeps (if b then done else raise (unexpected_response resp expected))) [
          | true ↦ lift-Keeps (ok tt)
          | false ↦ lift-Keeps (err (unexpected_response resp expected))
        ]

  drop_error-Keeps : {A : Type 0} (a : A) (o : Outcome A) → Keeps (drop_error a o)
  unfolding Keeps
  drop_error-Keeps a (ok b) d c = c
  drop_error-Keeps a (err e) d c = c
  drop_error-Keeps a panic d c = c

  -- Two writes and a flush.
  both_sent-Keeps :
      (v w : Exec Conn ℕ) → Writes v → Writes w → Keeps (attempt v >> (attempt w >> modify flush))
  unfolding Writes Keeps
  both_sent-Keeps v w hv hw d c =
      let (e1, wired1) = hv d (Clear-Wired c) in
      let (e2, wired2) = hw (v d).1 wired1 in rw (e1, e2) (flush-Clear wired2)

  fingerprint_challenge-Keeps : (c : Scheme) (i : Identity) → Keeps (fingerprint_challenge z c i)
  unfolding fingerprint_challenge write_string
  fingerprint_challenge-Keeps c i = bind-Keeps (read_bytes z) _ read_bytes-Keeps λ challenge.
      bind-Keeps (drop_error [] (sign c i challenge)) _ (drop_error-Keeps [] (sign c i challenge))
        λ signed.
          both_sent-Keeps (write_bytes z (fingerprint i)) (write_bytes z signed)
            (write_bytes-Writes (fingerprint i)) (write_bytes-Writes signed)

  send_blocks-Keeps : (n : ℕ) (file : Bytes) → Keeps (send_blocks z n file)
  unfolding send_blocks
  send_blocks-Keeps zero file = lift-Keeps (ok tt)
  send_blocks-Keeps (suc n) [] = lift-Keeps (err file_error)
  send_blocks-Keeps (suc n) (b ∷ file) =
      bind-Keeps (put (write_bytes z (take blocksize (b ∷ file)))) _
        (put-Keeps _ (write_bytes-Writes (take blocksize (b ∷ file))))
        λ u.
          bind-Keeps (expect_response z (codes "block_ok")) _
            (expect_response-Keeps (codes "block_ok"))
            λ v. send_blocks-Keeps n (drop blocksize (b ∷ file))

  send_file-Keeps : (file : Option Bytes) → Keeps (send_file z file)
  unfolding send_file write_int
  send_file-Keeps none = lift-Keeps (err file_error)
  send_file-Keeps (some file) =
      let n : ℕ = block_count (length file) in
      bind-Keeps (put (write_bytes z (int_to_bytes n))) _
        (put-Keeps _ (write_bytes-Writes (int_to_bytes n)))
        λ u.
          bind-Keeps (send_blocks z n file) _ (send_blocks-Keeps n file)
            λ v. expect_response-Keeps (codes "blob_ok")

  send_each-Keeps : (files : Blobs) (ids : List Bytes) → Keeps (send_each z files ids)
  unfolding send_each
  send_each-Keeps files [] = lift-Keeps (ok tt)
  send_each-Keeps files (id ∷ ids) =
      bind-Keeps (send_file z (file_of id files)) _ (send_file-Keeps (file_of id files))
        λ u. send_each-Keeps files ids

  module _ (f : Encodings) (files : Blobs) where
    send_blobs-Keeps : (ids : List Bytes) → Keeps (send_blobs z f files ids)
    unfolding send_blobs
    send_blobs-Keeps ids =
        bind-Keeps (put (write_struct z f.ids ids)) _ (put-Keeps _ (write_struct-Writes f.ids ids))
          λ u. send_each-Keeps files ids

    -- What follows the times.
    after_times-Keeps :
        (r : Room) (times : SyncMap)
        → Keeps (do
          put (write_struct z f.messages (find_messages_to_sync r.messages times))
          expect_response z (codes "messages_ok")
          send_blobs z f files (blob_ids_from_messages (find_messages_to_sync r.messages times))
          expect_response z (codes "sync_ok"))
    after_times-Keeps r times =
        let picked : List Message = find_messages_to_sync r.messages times in
        bind-Keeps (put (write_struct z f.messages picked)) _
          (put-Keeps _ (write_struct-Writes f.messages picked))
          λ u1.
            bind-Keeps (expect_response z (codes "messages_ok")) _
              (expect_response-Keeps (codes "messages_ok"))
              λ u2.
                bind-Keeps (send_blobs z f files (blob_ids_from_messages picked)) _
                  (send_blobs-Keeps (blob_ids_from_messages picked))
                  λ u3. expect_response-Keeps (codes "sync_ok")

    converse-Keeps : (c : Scheme) (r : Room) → Keeps (converse z f files c r)
    unfolding converse read_struct
    converse-Keeps c r =
        bind-Keeps (fingerprint_challenge z c r.self) _ (fingerprint_challenge-Keeps c r.self) λ u1.
          bind-Keeps (put (write_bytes z r.id)) _ (put-Keeps _ (write_bytes-Writes r.id)) λ u2.
            bind-Keeps (expect_response z (codes "auth_ok")) _
              (expect_response-Keeps (codes "auth_ok"))
              λ u3.
                bind-Keeps (read_struct z f.times_of) _
                  (bind-Keeps (read_bytes z) _ read_bytes-Keeps λ raw. lift-Keeps _)
                  (after_times-Keeps r)

    -- Whatever whole messages arrive at a calling side that has said nothing yet, in any pieces
    -- that are not empty and cut no header of four bytes, and wherever they break off, it ends,
    -- with or without an error, with nothing left in its buffer, and what it has sent is whole
    -- frames.
    pub converse-hushed :
        (c : Scheme) (r : Room) (ins : List Bytes) (d : Conn)
        → Link z d ins []
        → All (Fits z) ins
        → let t = (converse z f files c r d).1 in
          (t.buffered ≡ []) × ((outs : List Bytes) × (t.sent ≡ frames z outs))
    unfolding Keeps
    converse-hushed c r ins d link fit =
        let clear =
          converse-Keeps c r d (record { ins = ins; outs = []; fit = fit; link = link }) in
        let (sent, nothing) = Link-sent clear.link in (nothing, (clear.outs, sent))
