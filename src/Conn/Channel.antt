-- ===== src/Conn/Channel.antt =====
-- A connection as a channel of whole messages: `Wire z d ins outs waits` says that the frames of
-- `ins` are what is still to be read, that those of `outs` were sent, and that those of `waits` were
-- written after them and wait, less what a full buffer has sent of them already.
use onionmsg.Base.{
  ℕ, ◌+◌, ◌^◌, ◌≤◌, ◌<◌, ◌≡◌, refl, ap, sym, ◌∙◌, false, ltb, List, [], ◌∷◌, ◌++◌, connection_error,
  length, Bytes, ok, err, arith, append_assoc, append-nil, drop, drop-append, append-both_nil,
}
use onionmsg.Conn.{
  Conn, Zstd, read, read_piece, read_bytes, read_int, write_bytes, int_to_bytes, packed, flag_byte,
  frame, buffer_write, buffer_put, max_msg_size, flush,
}
use onionmsg.Conn.Stream.{joined, NonEmpty, Prompt, after, joined-after, NonEmpty-after}
use onionmsg.Conn.RoundTrip.{bytes_to_int-int_to_bytes, unpacked-packed, read_frame, buffer_put-lem}

abbrev pub frame_bytes : Zstd → Bytes → Bytes
frame_bytes z msg =
    int_to_bytes (length (packed z msg).1) ++ (flag_byte (packed z msg).0 ∷ (packed z msg).1)

-- What is sent of the message is no longer than a megabyte.
abbrev pub Fits : Zstd → Bytes → Type 0
Fits z msg = length (packed z msg).1 ≤ max_msg_size

abbrev pub frames : Zstd → List Bytes → Bytes
frames z [] = []
frames z (m ∷ ms) = frame_bytes z m ++ frames z ms

-- The first four bytes of each frame come in one piece.
abbrev pub HeadersWhole : Zstd → List Bytes → List Bytes → Type 0
HeadersWhole z pieces [] = Unit {0}
HeadersWhole z pieces (m ∷ ms) =
    Prompt 4 pieces × HeadersWhole z (after (length (frame_bytes z m)) pieces) ms

-- Whatever pieces the frames arrive in, no header is cut. `early` was sent although no flush asked.
pub record Wire (z : Zstd) (d : Conn) (ins outs waits : List Bytes) : Type 0 where
  pub full : NonEmpty d.arrived
  pub incoming : joined d.arrived ≡ frames z ins
  pub headers : HeadersWhole z d.arrived ins
  pub early : Bytes
  pub sent : d.sent ≡ frames z outs ++ early
  pub waiting : early ++ d.buffered ≡ frames z waits

-- All that was written was sent.
abbrev pub Link : Zstd → Conn → List Bytes → List Bytes → Type 0
Link z d ins outs = Wire z d ins outs []

pub Link-sent :
    {z : Zstd} {d : Conn} {ins outs : List Bytes}
    → Link z d ins outs
    → (d.sent ≡ frames z outs) × (d.buffered ≡ [])
Link-sent {z = z} {outs = outs} link =
    let (none_early, none_buffered) = append-both_nil link.early _ link.waiting in
    (
      link.sent ∙ (ap (λ e. frames z outs ++ e) none_early ∙ append-nil (frames z outs)),
      none_buffered,
    )

module _ (z : Zstd) where
  pub Fits-short : (m : Bytes) → length m ≤ max_msg_size → Fits z m
  unfolding packed
  Fits-short m h = ground arith

  frames-append : (ms ns : List Bytes) → frames z (ms ++ ns) ≡ frames z ms ++ frames z ns
  frames-append [] ns = refl
  frames-append (k ∷ ms) ns =
      ap (◌++◌ (frame_bytes z k)) (frames-append ms ns)
      ∙ sym (append_assoc (frame_bytes z k) (frames z ms) (frames z ns))

  nothing_arrived : (pieces : List Bytes) → NonEmpty pieces → joined pieces ≡ [] → pieces ≡ []
  nothing_arrived [] full e = refl
  nothing_arrived ([] ∷ pieces) full e = absurd (let h : 0 < 0 = full.0 in omega arith)
  nothing_arrived ((b ∷ piece) ∷ pieces) full e = absurd (ground arith)

  pub end_of_input :
      {d : Conn} {outs waits : List Bytes}
      → Wire z d [] outs waits
      → read_bytes z d ≡ (err connection_error, d)
  unfolding read_bytes read read_piece
  end_of_input {d = d} link =
      let nothing : d.arrived ≡ [] = nothing_arrived d.arrived link.full link.incoming in
      rw (ap (read_piece 4) nothing)
        (ap (λ a. (err connection_error, record d { arrived = a })) (sym nothing))

  frame-tail :
      (m : Bytes) (rest : Bytes)
      → frame_bytes z m ++ rest
        ≡ int_to_bytes (length (packed z m).1)
          ++ (flag_byte (packed z m).0 ∷ ((packed z m).1 ++ rest))
  frame-tail m rest =
      append_assoc (int_to_bytes (length (packed z m).1))
        (flag_byte (packed z m).0 ∷ (packed z m).1) rest

  frame-length : (m : Bytes) → 4 + (1 + length (packed z m).1) ≡ length (frame_bytes z m)
  unfolding int_to_bytes
  frame-length m = omega arith

  module _ {d : Conn} {ins outs waits : List Bytes} where
    pub receive :
        (m : Bytes)
        → Wire z d (m ∷ ins) outs waits
        → Fits z m
        → (t : Conn) × (read_bytes z d ≡ (ok m, t)) × Wire z t ins outs waits
    receive m link fits =
        let n : ℕ = length (frame_bytes z m) in
        let got =
          read_frame z (packed z m).0 (packed z m).1 (frames z ins) d link.full link.headers.0
            (link.incoming ∙ frame-tail m (frames z ins)) fits in
        (
          record d { arrived = after n d.arrived },
          got
              ∙ ap (λ (o, k). (o, record d { arrived = after k d.arrived }))
                  (ap (λ o. (o, 4 + (1 + length (packed z m).1))) (unpacked-packed z m)
                    ∙ ap (λ k. (ok m, k)) (frame-length m)),
          record {
            full = NonEmpty-after n d.arrived link.full;
            incoming =
                joined-after n d.arrived
                ∙ (ap (drop n) link.incoming ∙ drop-append (frame_bytes z m) (frames z ins));
            headers = link.headers.1;
            early = link.early;
            sent = link.sent;
            waiting = link.waiting;
          },
        )

    pub receive_int :
        (n : ℕ)
        → Wire z d (int_to_bytes n ∷ ins) outs waits
        → n < 2 ^ 32
        → (t : Conn) × (read_int z d ≡ (ok n, t)) × Wire z t ins outs waits
    unfolding read_int
    receive_int n link small =
        let (t, e, link') =
          receive (int_to_bytes n) link
            (Fits-short (int_to_bytes n) (unfold int_to_bytes in omega arith)) in
        (t, rw (e, bytes_to_int-int_to_bytes n small) refl, link')

    pub send :
        (m : Bytes)
        → Wire z d ins outs waits
        → Fits z m
        → (n : ℕ) × (t : Conn) × (write_bytes z m d ≡ (ok n, t))
          × Wire z t ins outs (waits ++ (m ∷ []))
    unfolding write_bytes frame buffer_write
    send m link fits =
        let f : Bytes = frame_bytes z m in
        let t : Conn = buffer_put f d in
        let small : ltb max_msg_size (length (packed z m).1) ≡ false = ground arith in
        let (arrived, out, sent, all) = buffer_put-lem z f d in
        (
          length f,
          t,
          rw small refl,
          record {
            full = rw arrived link.full;
            incoming = ap joined arrived ∙ link.incoming;
            headers = rw arrived link.headers;
            early = link.early ++ out;
            sent =
                sent ∙ (ap (λ l. l ++ out) link.sent ∙ append_assoc (frames z outs) link.early out);
            waiting =
                append_assoc link.early out t.buffered
                ∙ (ap (λ l. link.early ++ l) all
                    ∙ (sym (append_assoc link.early d.buffered f)
                        ∙ (ap (λ l. l ++ f) link.waiting
                            ∙ (ap (λ l. frames z waits ++ l) (sym (append-nil f))
                                ∙ sym (frames-append waits (m ∷ []))))));
          },
        )

    pub flush-Link : Wire z d ins outs waits → Link z (flush d) ins (outs ++ waits)
    unfolding flush
    flush-Link link = record {
      full = link.full;
      incoming = link.incoming;
      headers = link.headers;
      early = [];
      sent =
          ap (λ l. l ++ d.buffered) link.sent
          ∙ (append_assoc (frames z outs) link.early d.buffered
              ∙ (ap (λ l. frames z outs ++ l) link.waiting
                  ∙ (sym (frames-append outs waits)
                      ∙ sym (append-nil (frames z (outs ++ waits))))));
      waiting = refl;
    }
