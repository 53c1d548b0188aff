-- ===== src/Conn/Refinement.antt =====
-- What a user of a connection can observe over any sequence of calls.
use onionmsg.Base.{
  ◌≡◌, refl, ap, ◌∙◌, ltb, if◌then◌else◌, List, [], ◌∷◌, ◌++◌, length, Bytes, ok, err, panic,
  Outcome, too_large, connection_error, inl, inr, arith, All, Bool-cases,
}
use onionmsg.Conn.{Conn, Zstd, read_bytes, write_bytes, packed, max_msg_size, flush}
use onionmsg.Conn.RoundTrip.{write_bytes-too_large}
use onionmsg.Conn.Channel.{Wire, Fits, receive, send, end_of_input, flush-Link}

pub data Op : Type 0 where
  read_msg : Op
  write_msg : Bytes → Op
  flush_all : Op

-- The answers of the calls and the connection afterwards. A call that writes answers with no bytes.
unfoldable pub call : Zstd → Op → Conn → Outcome Bytes × Conn
call z read_msg d = read_bytes z d
call z (write_msg m) d =
    let (o, t) = write_bytes z m d in (elim o [ ok n ↦ ok [] | err e ↦ err e | panic ↦ panic ], t)
call z flush_all d = (ok [], flush d)

unfoldable pub calls : Zstd → List Op → Conn → List (Outcome Bytes) × Conn
unfolding call
calls z [] d = ([], d)
calls z (op ∷ ops) d = let (o, t) = call z op d in let (os, u) = calls z ops t in (o ∷ os, u)

-- The same calls on lists of messages: what is to be read, what was written since the last flush,
-- and what was flushed.
pub record Channel : Type 0 where
  pub incoming : List Bytes
  pub waiting : List Bytes
  pub outgoing : List Bytes

unfoldable pub act : Zstd → Op → Channel → Outcome Bytes × Channel
act z read_msg c = elim c.incoming [
  | [] ↦ (err connection_error, c)
  | m ∷ ms ↦ (ok m, record c { incoming = ms })
]
act z (write_msg m) c =
    if ltb max_msg_size (length (packed z m).1)
    then (err (too_large max_msg_size), c)
    else (ok [], record c { waiting = c.waiting ++ (m ∷ []) })
act z flush_all c = (ok [], record c { waiting = []; outgoing = c.outgoing ++ c.waiting })

unfoldable pub acts : Zstd → List Op → Channel → List (Outcome Bytes) × Channel
unfolding act
acts z [] c = ([], c)
acts z (op ∷ ops) c = let (o, t) = act z op c in let (os, u) = acts z ops t in (o ∷ os, u)

-- The connection carries the channel, and all that is to be read is short enough.
abbrev pub Carries : Zstd → Conn → Channel → Type 0
Carries z d c = Wire z d c.incoming c.outgoing c.waiting × All (Fits z) c.incoming

module _ (z : Zstd) where
  Refines : Op → Conn → Channel → Type 0
  Refines op d c = ((call z op d).0 ≡ (act z op c).0) × Carries z (call z op d).1 (act z op c).1

  read-Refines :
      (ins waits outs : List Bytes) (d : Conn)
      → Carries z d (record { incoming = ins; waiting = waits; outgoing = outs })
      → Refines read_msg d (record { incoming = ins; waiting = waits; outgoing = outs })
  unfolding Refines call act
  read-Refines [] waits outs d (link, fits) = rw (end_of_input z link) (refl, (link, tt))
  read-Refines (m ∷ ins) waits outs d (link, fits) =
      let (t, e, link') = receive z m link fits.0 in rw e (refl, (link', fits.1))

  call-Refines : (op : Op) (d : Conn) (c : Channel) → Carries z d c → Refines op d c
  unfolding Refines call act
  call-Refines read_msg d c h = read-Refines c.incoming c.waiting c.outgoing d h
  call-Refines (write_msg m) d c (link, fits) =
      elim (Bool-cases (ltb max_msg_size (length (packed z m).1))) [
        | inl big ↦
            rw (call, big, (write_bytes-too_large z m d).1 (ground arith)) (refl, (link, fits))
        | inr small ↦
            let (n, t, e, link') = send z m link (ground arith) in
            rw (call, small, e) (refl, (link', fits))
      ]
  call-Refines flush_all d c (link, fits) = (refl, (flush-Link z link, fits))

  -- Let a connection carry a channel: the frames of the channel's messages, none of them too large,
  -- are to arrive in any pieces that are not empty and cut no header of four bytes, and what was
  -- flushed was sent, with what waits behind it. Then over any sequence of reads, writes and
  -- flushes the connection answers as the channel does, with a message, a refusal or the end, and
  -- carries it afterwards: what was not read is still to be read, what was accepted before the last
  -- flush was sent, in order, and what was accepted since waits behind it, less what a full buffer
  -- has already sent.
  pub calls_refines :
      (ops : List Op) (d : Conn) (c : Channel)
      → Carries z d c
      → ((calls z ops d).0 ≡ (acts z ops c).0) × Carries z (calls z ops d).1 (acts z ops c).1
  unfolding calls acts Refines
  calls_refines [] d c h = (refl, h)
  calls_refines (op ∷ ops) d c h =
      let (e, h1) = call-Refines op d c h in
      let (es, h2) = calls_refines ops (call z op d).1 (act z op c).1 h1 in
      (ap (λ o. o ∷ (calls z ops (call z op d).1).0) e ∙ ap (λ os. (act z op c).0 ∷ os) es, h2)
