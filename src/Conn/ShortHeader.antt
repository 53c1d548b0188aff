-- ===== src/Conn/ShortHeader.antt =====
-- `ReadBytes` does not look at how many bytes of the header a read returned.
use onionmsg.Base.{
  suc, ◌-◌, ◌≤◌, ◌<◌, ◌≡◌, [], ◌∷◌, take, drop, length, Bytes, ok, ok-injective, ap, sym, ◌∙◌,
  arith,
}
use onionmsg.Conn.{
  Conn, Zstd, read, read_piece, left_over, read_loop, read_payload, read_bytes, bytes_to_int,
  int_to_bytes, padded, packed, unpacked, flag_byte, is_one, frame,
}

short_frame :
    (z : Zstd) (msg : Bytes)
    → length msg < 128
    → frame z msg ≡ ok (length msg ∷ 0 ∷ 0 ∷ 0 ∷ 0 ∷ msg)
unfolding frame packed int_to_bytes flag_byte
short_frame z msg h = ground arith

misread :
    (z : Zstd) (msg : Bytes) (d : Conn)
    → 3 ≤ length msg
    → length msg < 128
    → d.arrived ≡ (length msg ∷ []) ∷ (0 ∷ 0 ∷ 0 ∷ 0 ∷ msg) ∷ []
    → (read_bytes z d).0 ≡ ok (0 ∷ 0 ∷ 0 ∷ take (length msg - 3) msg)
unfolding read_bytes read read_piece left_over read_payload read_loop padded is_one unpacked
misread z [] d lo hi e = absurd (omega arith)
misread z (x ∷ []) d lo hi e = absurd (omega arith)
misread z (x ∷ y ∷ []) d lo hi e = absurd (omega arith)
misread z (x ∷ y ∷ w ∷ msg) d lo hi e =
    let size : bytes_to_int (suc (suc (suc (length msg))) ∷ 0 ∷ 0 ∷ 0 ∷ [])
        ≡ ok (suc (suc (suc (length msg)))) =
      unfold bytes_to_int in ap ok (omega arith) in
    rw (e, size) (ground arith)

-- If only the first byte of a short message's frame has arrived when the read begins, and the rest
-- arrives in one piece, then what is returned without an error is three zero bytes of the
-- header followed by the message less its last three bytes.
pub read_bytes-split :
    (z : Zstd) (msg f : Bytes) (d : Conn)
    → 3 ≤ length msg
    → length msg < 128
    → frame z msg ≡ ok f
    → d.arrived ≡ take 1 f ∷ drop 1 f ∷ []
    → (read_bytes z d).0 ≡ ok (0 ∷ 0 ∷ 0 ∷ take (length msg - 3) msg)
read_bytes-split z msg f d lo hi made split =
    misread z msg d lo hi
      (split ∙ ap (λ g. take 1 g ∷ drop 1 g ∷ []) (ok-injective (sym made ∙ short_frame z msg hi)))
