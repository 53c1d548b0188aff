-- ===== src/Conn.antt =====
-- pkg/sio/connection/data_conn.go: messages as frames of length, compression flag and payload over a
-- buffered stream. The compression library is a parameter. Integers are not negative.
pub mod Channel
pub mod Refinement
pub mod Stream
pub mod RoundTrip
pub mod ShortHeader
use onionmsg.Base.{
  ℕ, zero, suc, ◌+◌, ◌-◌, ◌*◌, ◌/◌, ◌%◌, ◌^◌, ◌≡◌, Bool, true, false, ◌==◌, ltb, leb, ◌&&◌,
  if◌then◌else◌, List, [], ◌∷◌, ◌++◌, take, drop, length, Option, none, some, Bytes, Outcome, ok,
  err, panic, too_large, corrupt_input, malformed_json, connection_error,
}
use onionmsg.Exec.{Exec, done, raise, lift, modify, ◌>>=◌, ◌>>◌}

-- 1 MByte
abbrev pub max_msg_size : ℕ
max_msg_size = 2 ^ 20

-- 128 Byte
abbrev pub comp_threshold : ℕ
comp_threshold = 2 ^ 7

-- The size of the buffer that `bufio.NewWriter` makes.
abbrev pub buffer_size : ℕ
buffer_size = 2 ^ 12

-- `klauspost/compress/zstd`: what `EncodeAll` makes, `DecodeAll` takes apart.
pub record Zstd : Type 0 where
  pub encode_all : Bytes → Bytes
  pub decode_all : Bytes → Option Bytes
  pub decode_encode : (b : Bytes) → decode_all (encode_all b) ≡ some b

-- `arrived` is what the remote side sent, in the pieces in which reads of the socket return it, the
-- buffered one first. At its end the connection is closed. `buffered` waits for `Flush`, or for a
-- write that does not fit; `sent` was handed to the network, whose writes do not fail.
pub record Conn : Type 0 where
  pub arrived : List Bytes
  pub buffered : Bytes
  pub sent : Bytes

-- `binary.LittleEndian.Uint32`, which panics on fewer than four bytes.
unfoldable pub bytes_to_int : Bytes → Outcome ℕ
bytes_to_int (a ∷ b ∷ c ∷ d ∷ rest) = ok (a + b * 2 ^ 8 + c * 2 ^ 16 + d * 2 ^ 24)
bytes_to_int _ = panic

-- `uint32(i)` drops the high bits.
unfoldable pub int_to_bytes : ℕ → Bytes
int_to_bytes i =
    (i % 2 ^ 8) ∷ (i / 2 ^ 8 % 2 ^ 8) ∷ (i / 2 ^ 16 % 2 ^ 8) ∷ (i / 2 ^ 24 % 2 ^ 8) ∷ []

-- What is left of a piece after a read of `n` bytes.
unfoldable pub left_over : ℕ → Bytes → List Bytes → List Bytes
left_over n piece pieces = if leb (length piece) n then pieces else drop n piece ∷ pieces

-- `bufio.Reader.Read` into a buffer of `n` bytes: at most that many, and from one piece.
unfoldable pub read_piece : ℕ → List Bytes → Outcome Bytes × List Bytes
read_piece n [] = (err connection_error, [])
read_piece n (piece ∷ pieces) = (ok (take n piece), left_over n piece pieces)

unfoldable pub read : ℕ → Exec Conn Bytes
unfolding read_piece left_over
read n d = let (o, left) = read_piece n d.arrived in (o, record d { arrived = left })

-- A buffer of `n` zero bytes into which `got` was read.
unfoldable pub padded : ℕ → Bytes → Bytes
padded zero got = []
padded (suc n) [] = 0 ∷ padded n []
padded (suc n) (b ∷ got) = b ∷ padded n got

unfoldable pub more_after : Bytes → Outcome Bytes → Outcome Bytes
more_after piece (ok total) = ok (piece ++ total)
more_after piece (err e) = err e
more_after piece panic = panic

-- The loop that reads the payload, `need` bytes of it still to come.
unfoldable pub read_loop : List Bytes → ℕ → Outcome Bytes × List Bytes
unfolding left_over more_after
read_loop [] zero = (ok [], [])
read_loop [] (suc need) = (err connection_error, [])
read_loop (piece ∷ pieces) zero = (ok [], piece ∷ pieces)
read_loop (piece ∷ pieces) (suc need) =
    let (more, left) = read_loop pieces (suc need - length piece) in
    if leb (suc need) (length piece)
    then (ok (take (suc need) piece), left_over (suc need) piece pieces)
    else (more_after piece more, left)

unfoldable pub read_payload : ℕ → Exec Conn Bytes
unfolding read_loop
read_payload need d = let (o, left) = read_loop d.arrived need in (o, record d { arrived = left })

-- `bufio.Writer.Write`: what fits is buffered. What does not is sent, after what was buffered before;
-- if a part of it fills the buffer up and the rest fits then, the rest is buffered.
unfoldable pub buffer_put : Bytes → Conn → Conn
buffer_put b d =
    let free : ℕ = buffer_size - length d.buffered in
    if leb (length b) free
    then record d { buffered = d.buffered ++ b }
    else if ltb 0 (length d.buffered) && leb (length b - free) buffer_size
    then record d { buffered = drop free b; sent = d.sent ++ (d.buffered ++ take free b) }
    else record d { buffered = []; sent = d.sent ++ (d.buffered ++ b) }

unfoldable pub buffer_write : Bytes → Exec Conn ℕ
unfolding buffer_put
buffer_write b d = (ok (length b), buffer_put b d)

-- `Flush` hands the buffer to the network; its errors are dropped by every caller.
unfoldable pub flush : Conn → Conn
flush d = record d { buffered = []; sent = d.sent ++ d.buffered }

unfoldable pub flag_byte : Bool → ℕ
flag_byte true = 1
flag_byte false = 0

-- `c[0] == 0x01`
unfoldable pub is_one : Bytes → Bool
is_one [] = false
is_one (b ∷ rest) = b == 1

module _ (z : Zstd) where
  -- The payload and its flag: the compressed message where that is worth it.
  unfoldable pub packed : Bytes → Bool × Bytes
  packed msg =
      if ltb (length msg) comp_threshold
      then (false, msg)
      else if ltb (length (z.encode_all msg)) (length msg)
      then (true, z.encode_all msg)
      else (false, msg)

  unfoldable pub frame : Bytes → Outcome Bytes
  unfolding packed flag_byte
  frame msg =
      let (compressed, payload) = packed msg in
      if ltb max_msg_size (length payload)
      then err (too_large max_msg_size)
      else ok (int_to_bytes (length payload) ++ (flag_byte compressed ∷ payload))

  unfoldable pub write_bytes : Bytes → Exec Conn ℕ
  write_bytes msg = do message ← lift (frame msg); buffer_write message

  unfoldable pub unpacked : Bool → Bytes → Outcome Bytes
  unpacked false total = ok total
  unpacked true total = elim (z.decode_all total) [ none ↦ err corrupt_input | some b ↦ ok b ]

  -- Both short reads are taken for whole ones.
  unfoldable pub read_bytes : Exec Conn Bytes
  unfolding unpacked is_one
  read_bytes = do
    l ← read 4
    size ← lift (bytes_to_int (padded 4 l))
    if ltb max_msg_size size
        then raise (too_large size)
        else (do c ← read 1; total ← read_payload size; lift (unpacked (is_one (padded 1 c)) total))

  unfoldable pub write_string : Bytes → Exec Conn ℕ
  write_string = write_bytes

  unfoldable pub read_string : Exec Conn Bytes
  read_string = read_bytes

  unfoldable pub write_int : ℕ → Exec Conn ℕ
  write_int n = write_bytes (int_to_bytes n)

  unfoldable pub read_int : Exec Conn ℕ
  read_int = do msg ← read_bytes; lift (bytes_to_int msg)

  module _ {A : Type 0} where
    -- `json.Marshal`, which may fail, and `json.Unmarshal`.
    unfoldable pub write_struct : (A → Option Bytes) → A → Exec Conn ℕ
    write_struct marshal a = elim (marshal a) [
      | none ↦ raise malformed_json
      | some m ↦ write_bytes m
    ]

    unfoldable pub read_struct : (Bytes → Option A) → Exec Conn A
    read_struct unmarshal = do
      raw ← read_bytes
      lift (elim (unmarshal raw) [ none ↦ err malformed_json | some a ↦ ok a ])

-- A fresh connection, whose bytes arrive in these pieces.
unfoldable pub wrap_connection : List Bytes → Conn
wrap_connection pieces = record { arrived = pieces; buffered = []; sent = [] }

-- `Buffered`: the bytes that wait for a flush.
unfoldable pub count_buffered : Conn → ℕ
count_buffered d = length d.buffered
