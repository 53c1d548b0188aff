-- ===== src/Daemon/Conversations/Transfer.antt =====
-- The blobs that a peer sends are stored: `readBlobs` run on what `sendBlobs` of
-- internal/types/messaging_peer.go writes.
use onionmsg.Base.{
  ◌^◌, ◌<◌, ◌≡◌, refl, ap, ◌∙◌, true, List, [], ◌∷◌, ◌++◌, map, length, Bytes, ok, codes, All,
  arith, append_assoc, append-nil,
}
use onionmsg.Conn.{Conn, Zstd, int_to_bytes}
use onionmsg.Conn.Channel.{Link, Fits, Fits-short, receive, receive_int}
use onionmsg.Handshake.Posts.{post_now-Link}
use onionmsg.Daemon.Session.{Session, Blobs, append_blob}
use onionmsg.Daemon.Conversations.{
  Formats, read_blocks, or_remove, read_file, read_opened, read_each,
}

-- A blob that is sent: its id and its blocks.
abbrev pub Sent : Type 0
Sent = Bytes × List Bytes

-- The messages that carry blobs after their ids: for each the number of its blocks, and the blocks.
abbrev pub carried : List Sent → List Bytes
carried [] = []
carried ((id, blocks) ∷ files) = int_to_bytes (length blocks) ∷ (blocks ++ carried files)

-- What is answered to them.
abbrev pub block_acks : List Bytes → List Bytes
block_acks [] = []
block_acks (b ∷ bs) = codes "block_ok" ∷ block_acks bs

abbrev pub acks : List Sent → List Bytes
acks [] = []
acks ((id, blocks) ∷ files) = block_acks blocks ++ (codes "blob_ok" ∷ acks files)

-- The files afterwards: the blocks of each are appended to its own, which is made where it is missing.
abbrev pub append_blocks : Bytes → List Bytes → Blobs → Blobs
append_blocks id [] bs = bs
append_blocks id (b ∷ blocks) bs = append_blocks id blocks (append_blob id b bs)

abbrev pub store : List Sent → Blobs → Blobs
store [] bs = bs
store ((id, blocks) ∷ files) bs = store files (append_blocks id blocks (append_blob id [] bs))

-- Each block is short enough, each count has 32 bits, and the files can be opened.
abbrev pub CanSend : Zstd → Formats → Sent → Type 0
CanSend z f (id, blocks) = All (Fits z) blocks × (length blocks < 2 ^ 32) × (f.can_open id ≡ true)

module _ (z : Zstd) (f : Formats) where
  read_blocks-reads :
      (id : Bytes) (blocks ins outs : List Bytes) (s : Session)
      → Link z s.conn (blocks ++ ins) outs
      → All (Fits z) blocks
      → (d : Conn) × (read_blocks z f id (length blocks) s
          ≡ (ok tt, record s { conn = d; blobs = append_blocks id blocks s.blobs }))
        × Link z d ins (outs ++ block_acks blocks)
  unfolding read_blocks
  read_blocks-reads id [] ins outs s link fits = (s.conn, refl, rw append-nil link)
  read_blocks-reads id (b ∷ blocks) ins outs s link fits =
      let (d1, e1, link1) = receive z b link fits.0 in
      let (d2, e2, link2) =
        post_now-Link z (codes "block_ok") link1 (Fits-short z (codes "block_ok") (omega arith)) in
      let (d, e, link') =
        read_blocks-reads id blocks ins (outs ++ (codes "block_ok" ∷ []))
          (record s { conn = d2; blobs = append_blob id b s.blobs }) link2 fits.1 in
      (d, rw (e1, e2) e, rw (← append_assoc outs (codes "block_ok" ∷ []) (block_acks blocks)) link')

  read_file-reads :
      (id : Bytes) (blocks ins outs : List Bytes) (s : Session)
      → Link z s.conn (blocks ++ ins) outs
      → All (Fits z) blocks
      → (d : Conn) × (read_file z f id (length blocks) s ≡ (
        ok tt,
        record s { conn = d; blobs = append_blocks id blocks (append_blob id [] s.blobs) },
      ))
        × Link z d ins (outs ++ (block_acks blocks ++ (codes "blob_ok" ∷ [])))
  unfolding read_file or_remove
  read_file-reads id blocks ins outs s link fits =
      let (d1, e1, link1) =
        read_blocks-reads id blocks ins outs (record s { blobs = append_blob id [] s.blobs }) link
          fits in
      let (d2, e2, link2) =
        post_now-Link z (codes "blob_ok") link1 (Fits-short z (codes "blob_ok") (omega arith)) in
      (
        d2,
        rw (e1, e2) refl,
        rw (← append_assoc outs (block_acks blocks) (codes "blob_ok" ∷ [])) link2,
      )

  acks_eq :
      (outs blocks rest : List Bytes)
      → (outs ++ (block_acks blocks ++ (codes "blob_ok" ∷ []))) ++ rest
        ≡ outs ++ (block_acks blocks ++ (codes "blob_ok" ∷ rest))
  acks_eq outs blocks rest =
      append_assoc outs (block_acks blocks ++ (codes "blob_ok" ∷ [])) rest
      ∙ ap (◌++◌ outs) (append_assoc (block_acks blocks) (codes "blob_ok" ∷ []) rest)

  pub read_each-reads :
      (files : List Sent) (ins outs : List Bytes) (s : Session)
      → Link z s.conn (carried files ++ ins) outs
      → All (CanSend z f) files
      → (d : Conn) × (read_each z f (map (λ (id, bs). id) files) s
          ≡ (ok tt, record s { conn = d; blobs = store files s.blobs }))
        × Link z d ins (outs ++ acks files)
  unfolding read_each read_opened
  read_each-reads [] ins outs s link can = (s.conn, refl, rw append-nil link)
  read_each-reads ((id, blocks) ∷ files) ins outs s link can =
      let (d1, e1, link1) = receive_int z (length blocks) link can.0.1 in
      let link2' : Link z d1 (blocks ++ (carried files ++ ins)) outs =
        rw (← append_assoc blocks (carried files) ins) link1 in
      let (d2, e2, link2) =
        read_file-reads id blocks (carried files ++ ins) outs (record s { conn = d1 }) link2'
          can.0.0 in
      let (d, e, link') =
        read_each-reads files ins (outs ++ (block_acks blocks ++ (codes "blob_ok" ∷ [])))
          (record s { conn = d2; blobs = append_blocks id blocks (append_blob id [] s.blobs) })
          link2 can.1 in
      (d, rw (can.0.2, e1, e2) e, rw (acks_eq outs blocks (acks files)) at link')
