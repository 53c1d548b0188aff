-- ===== src/Conn/RoundTrip.antt =====
-- A frame that was written is read back, however the stream cuts it, as long as its first four bytes
-- arrive together.
use onionmsg.Base.{
  ℕ, ◌+◌, ◌-◌, ◌^◌, ◌≤◌, ◌<◌, sym, leb, ◌&&◌, append-nil, take-append-drop, Bool-cases, drop-drop,
  ◌≡◌, refl, ap, ◌∙◌, Bool, true, false, ltb, List, [], ◌∷◌, ◌++◌, take, drop, length,
  length-append, Bytes, ok, err, inl, inr, arith, Outcome-cases, too_large, ◌↔◌, append_assoc,
  take-append, drop-append,
}
use onionmsg.Conn.{
  Conn, Zstd, read, read_payload, read_bytes, write_bytes, bytes_to_int, int_to_bytes, padded,
  packed, unpacked, flag_byte, is_one, frame, buffer_put, buffer_write, buffer_size, max_msg_size,
}
use onionmsg.Conn.Stream.{
  joined, NonEmpty, Prompt, after, joined-after, after-after, read_piece-lem, read_loop-lem,
}

-- The integer of a header: four bytes, the lowest first.
pub bytes_to_int-int_to_bytes : (n : ℕ) → n < 2 ^ 32 → bytes_to_int (int_to_bytes n) ≡ ok n
unfolding bytes_to_int int_to_bytes
bytes_to_int-int_to_bytes n h = ap ok (omega arith)

header-lem : (n : ℕ) (s : Bytes) → padded 4 (take 4 (int_to_bytes n ++ s)) ≡ int_to_bytes n
unfolding int_to_bytes padded
header-lem n s = refl

header-drop : (n : ℕ) (s : Bytes) → drop 4 (int_to_bytes n ++ s) ≡ s
unfolding int_to_bytes
header-drop n s = refl

Prompt-one :
    (pieces : List Bytes) (b : ℕ) (s : Bytes)
    → NonEmpty pieces
    → joined pieces ≡ b ∷ s
    → Prompt 1 pieces
Prompt-one [] b s full e = ground arith
Prompt-one (piece ∷ pieces) b s full e = full.0

frame-drop :
    (c : Bool) (payload rest : Bytes)
    → drop
        (4 + (1 + length payload))
        (int_to_bytes (length payload) ++ (flag_byte c ∷ (payload ++ rest)))
      ≡ rest
unfolding int_to_bytes
frame-drop c payload rest =
    let n : ℕ = length payload in
    let l : Bytes = int_to_bytes n ++ (flag_byte c ∷ (payload ++ rest)) in
    sym (drop-drop 4 (1 + n) l) ∙ (sym (drop-drop 1 n (drop 4 l)) ∙ drop-append payload rest)

module _ (z : Zstd) where
  pub unpacked-packed : (msg : Bytes) → unpacked z (packed z msg).0 (packed z msg).1 ≡ ok msg
  unfolding packed unpacked
  unpacked-packed msg = ground (arith, z.decode_encode msg)

  pub flag_lem : (c : Bool) → is_one (padded 1 (flag_byte c ∷ [])) ≡ c
  unfolding flag_byte is_one padded
  flag_lem true = refl
  flag_lem false = refl

  frame-lem :
      (msg f : Bytes)
      → frame z msg ≡ ok f
      → (f
          ≡ int_to_bytes (length (packed z msg).1)
            ++ (flag_byte (packed z msg).0 ∷ (packed z msg).1))
        × (length (packed z msg).1 ≤ max_msg_size)
  unfolding frame
  frame-lem msg f h = ground arith

  -- A header, a flag and a payload of the announced length are read as such, and no more.
  pub read_frame :
      (c : Bool) (payload rest : Bytes) (d : Conn)
      → NonEmpty d.arrived
      → Prompt 4 d.arrived
      → joined d.arrived ≡ int_to_bytes (length payload) ++ (flag_byte c ∷ (payload ++ rest))
      → length payload ≤ max_msg_size
      → read_bytes z d
        ≡ (unpacked z c payload, record d { arrived = after (4 + (1 + length payload)) d.arrived })
  unfolding read_bytes read read_payload
  read_frame c payload rest d full prompt j fits =
      let n : ℕ = length payload in
      let (e1, full1) = read_piece-lem 4 d.arrived full prompt in
      let p1 = after 4 d.arrived in
      let k1 : joined p1 ≡ flag_byte c ∷ (payload ++ rest) =
        joined-after 4 d.arrived ∙ (ap (drop 4) j ∙ header-drop n _) in
      let (e2, full2) = read_piece-lem 1 p1 full1 (Prompt-one p1 _ _ full1 k1) in
      let p2 = after 1 p1 in
      let k2 : joined p2 ≡ payload ++ rest = joined-after 1 p1 ∙ ap (drop 1) k1 in
      let e3 = read_loop-lem p2 n full2 (rw (k2, length-append payload rest) (omega arith)) in
      let h1 : bytes_to_int (padded 4 (take 4 (joined d.arrived))) ≡ ok n =
        ap (λ s. bytes_to_int (padded 4 (take 4 s))) j
        ∙ (ap bytes_to_int (header-lem n _) ∙ bytes_to_int-int_to_bytes n (omega arith)) in
      let small : ltb max_msg_size n ≡ false = ground arith in
      let left : after n p2 ≡ after (4 + (1 + n)) d.arrived =
        after-after 1 n p1 ∙ after-after 4 (1 + n) d.arrived in
      rw (e1, h1, small, e2, e3, k1, k2, flag_lem c, take-append payload rest, left) refl

  -- What a write puts into the buffer and sends is what it is given, behind what waited.
  pub buffer_put-lem :
      (b : Bytes) (d : Conn)
      → let t = buffer_put b d in
        (t.arrived ≡ d.arrived)
        × (out : Bytes) × (t.sent ≡ d.sent ++ out)
        × (out ++ t.buffered ≡ d.buffered ++ b)
  unfolding buffer_put
  buffer_put-lem b d =
      let free : ℕ = buffer_size - length d.buffered in
      elim (Bool-cases (leb (length b) free)) [
        | inl e ↦ rw e (refl, [], sym (append-nil d.sent), refl)
        | inr e ↦
            elim (Bool-cases (ltb 0 (length d.buffered) && leb (length b - free) buffer_size)) [
              | inl part ↦
                  rw (e, part)
                    (
                      refl,
                      d.buffered ++ take free b,
                      refl,
                      append_assoc d.buffered (take free b) (drop free b)
                          ∙ ap (λ l. d.buffered ++ l) (take-append-drop free b),
                    )
              | inr whole ↦
                  rw (e, whole) (refl, d.buffered ++ b, refl, append-nil (d.buffered ++ b))
            ]
      ]

  -- What `WriteBytes` adds to what was sent and what waits in the buffer is one frame, and `ReadBytes`
  -- reads it back: if the pieces that arrive are not empty, the first holds the four bytes of the
  -- header, and together they are the frame and more, then the read returns the message and leaves
  -- what came behind it.
  pub read_bytes-write_bytes :
      (msg rest : Bytes) (w w' d : Conn) (n : ℕ)
      → write_bytes z msg w ≡ (ok n, w')
      → NonEmpty d.arrived
      → Prompt 4 d.arrived
      → joined d.arrived ≡ drop (length (w.sent ++ w.buffered)) (w'.sent ++ w'.buffered) ++ rest
      → ((read_bytes z d).0 ≡ ok msg) × (joined (read_bytes z d).1.arrived ≡ rest)
  unfolding write_bytes buffer_write
  read_bytes-write_bytes msg rest w w' d n written full prompt j =
      elim (Outcome-cases (frame z msg)) [
        | inr failed ↦ absurd (ground arith)
        | inl (f, e) ↦
            let (shape, fits) = frame-lem msg f e in
            let t_is : buffer_put f w ≡ w' = ground arith in
            let (_, out, sent, all) = buffer_put-lem f w in
            let grown : w'.sent ++ w'.buffered ≡ (w.sent ++ w.buffered) ++ f =
              rw
                (
                  ← t_is,
                  sent,
                  append_assoc w.sent out (buffer_put f w).buffered,
                  all,
                  append_assoc w.sent w.buffered f,
                )
                refl in
            let payload : Bytes = (packed z msg).1 in
            let c : Bool = (packed z msg).0 in
            let j' : joined d.arrived
                ≡ int_to_bytes (length payload) ++ (flag_byte c ∷ (payload ++ rest)) =
              j
              ∙ (ap (λ l. drop (length (w.sent ++ w.buffered)) l ++ rest) grown
                  ∙ (ap (λ l. l ++ rest) (drop-append (w.sent ++ w.buffered) f ∙ shape)
                      ∙ append_assoc (int_to_bytes (length payload)) (flag_byte c ∷ payload)
                          rest)) in
            let got = read_frame c payload rest d full prompt j' fits in
            rw got (
              unpacked-packed msg,
              joined-after (4 + (1 + length payload)) d.arrived
                  ∙ (ap (drop (4 + (1 + length payload))) j' ∙ frame-drop c payload rest),
            )
      ]

  -- `WriteBytes` refuses a message exactly if what would be sent of it is longer than a megabyte, and
  -- then leaves the connection as it was.
  pub write_bytes-too_large :
      (msg : Bytes) (w : Conn)
      → (write_bytes z msg w ≡ (err (too_large max_msg_size), w))
        ↔ (max_msg_size < length (packed z msg).1)
  unfolding write_bytes frame buffer_write
  write_bytes-too_large msg w = (λ h. ground arith, λ h. ground arith)
