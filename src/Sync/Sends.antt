-- ===== src/Sync/Sends.antt =====
-- What `sendBlobs` writes, block by block, against the answers that come.
use onionmsg.Base.{
  ℕ, zero, suc, ◌≡◌, refl, List, [], ◌∷◌, ◌++◌, map, some, take, drop, length, All, Bytes, ok,
  codes, arith, append_assoc, append-nil, length-take,
}
use onionmsg.Conn.{Conn, Zstd, write_bytes, write_int, int_to_bytes, flush}
use onionmsg.Conn.Channel.{Link, Fits, Fits-short, send, flush-Link}
use onionmsg.Handshake.Posts.{expect_response-Link}
use onionmsg.Daemon.Session.{Blobs}
use onionmsg.Daemon.Conversations.Transfer.{Sent, carried, acks, block_acks}
use onionmsg.Sync.{put, file_of, send_blocks, send_file, send_each}
use onionmsg.Sync.Blocks.{
  blocksize, block_count, blocks, blocks_of, Counts, Counts-rest, Counts-some, block_count-Counts,
  length-blocks_of,
}

-- A file by its id, and the same cut into blocks.
abbrev pub cut : Bytes × Bytes → Sent
cut (id, file) = (id, blocks file)

abbrev pub Holds : Blobs → Bytes × Bytes → Type 0
Holds files (id, file) = file_of id files ≡ some file

module _ (z : Zstd) where
  pub put-Link :
      {d : Conn} {ins outs : List Bytes} (m : Bytes)
      → Link z d ins outs
      → Fits z m
      → (t : Conn) × (put (write_bytes z m) d ≡ (ok tt, t)) × Link z t ins (outs ++ (m ∷ []))
  unfolding put
  put-Link m link fits =
      let (n, t, e, link') = send z m link fits in (flush t, rw e refl, flush-Link z link')

  block-Fits : (file : Bytes) → Fits z (take blocksize file)
  block-Fits file = Fits-short z (take blocksize file) (omega (arith, length-take blocksize file))

  send_blocks-sends :
      (c : ℕ) (file : Bytes) (ins outs : List Bytes) (d : Conn)
      → Counts c (length file)
      → Link z d (block_acks (blocks_of c file) ++ ins) outs
      → (t : Conn) × (send_blocks z c file d ≡ (ok tt, t)) × Link z t ins (outs ++ blocks_of c file)
  unfolding send_blocks blocks_of
  send_blocks-sends zero file ins outs d counts link = (d, refl, rw append-nil link)
  send_blocks-sends (suc c) [] ins outs d counts link = absurd (Counts-some c [] counts refl)
  send_blocks-sends (suc c) (b ∷ file) ins outs d counts link =
      let (t1, e1, link1) = put-Link (take blocksize (b ∷ file)) link (block-Fits (b ∷ file)) in
      let (t2, e2, link2) =
        expect_response-Link z (codes "block_ok") link1
          (Fits-short z (codes "block_ok") (omega arith)) in
      let (t, e, link') =
        send_blocks-sends c (drop blocksize (b ∷ file)) ins
          (outs ++ (take blocksize (b ∷ file) ∷ [])) t2 (Counts-rest c (b ∷ file) counts) link2 in
      (
        t,
        rw (e1, e2) e,
        rw
            (append_assoc outs (take blocksize (b ∷ file) ∷ [])
              (blocks_of c (drop blocksize (b ∷ file))))
            at link',
      )

  send_file-sends :
      (file : Bytes) (ins outs : List Bytes) (d : Conn)
      → Link z d (block_acks (blocks file) ++ (codes "blob_ok" ∷ ins)) outs
      → (t : Conn) × (send_file z (some file) d ≡ (ok tt, t))
        × Link z t ins (outs ++ (int_to_bytes (length (blocks file)) ∷ blocks file))
  unfolding send_file write_int blocks
  send_file-sends file ins outs d link =
      let n : ℕ = block_count (length file) in
      let (t1, e1, link1) =
        put-Link (int_to_bytes n) link
          (Fits-short z (int_to_bytes n) (unfold int_to_bytes in omega arith)) in
      let (t2, e2, link2) =
        send_blocks-sends n file (codes "blob_ok" ∷ ins) (outs ++ (int_to_bytes n ∷ [])) t1
          (block_count-Counts (length file)) link1 in
      let (t, e, link') =
        expect_response-Link z (codes "blob_ok") link2
          (Fits-short z (codes "blob_ok") (omega arith)) in
      (
        t,
        rw (e1, e2, e) refl,
        rw (length-blocks_of n file, ← append_assoc outs (int_to_bytes n ∷ []) (blocks_of n file))
            link',
      )

  pub send_each-sends :
      (files : Blobs) (sent : List (Bytes × Bytes)) (ins outs : List Bytes) (d : Conn)
      → All (Holds files) sent
      → Link z d (acks (map cut sent) ++ ins) outs
      → (t : Conn) × (send_each z files (map (λ (id, b). id) sent) d ≡ (ok tt, t))
        × Link z t ins (outs ++ carried (map cut sent))
  unfolding send_each
  send_each-sends files [] ins outs d holds link = (d, refl, rw append-nil link)
  send_each-sends files ((id, file) ∷ sent) ins outs d holds link =
      let rest : List Bytes = carried (map cut sent) in
      let (t1, e1, link1) = send_file-sends file (acks (map cut sent) ++ ins) outs d (
        rw (append_assoc (block_acks (blocks file)) (codes "blob_ok" ∷ acks (map cut sent)) ins) at
          link) in
      let (t, e, link') =
        send_each-sends files sent ins (outs ++ (int_to_bytes (length (blocks file)) ∷ blocks file))
          t1 holds.1 link1 in
      (
        t,
        rw (holds.0, e1) e,
        rw (append_assoc outs (int_to_bytes (length (blocks file)) ∷ blocks file) rest) at link',
      )
