-- ===== src/Tests/Wire.antt =====
-- Frames and the challenge over connections with little in them.
use onionmsg.Base.{◌≡◌, refl, List, [], ◌∷◌, ◌++◌, codes, ok, arith, Bytes, same}
use onionmsg.Base64.{encode, decode, char_of, digit_of, decode_groups}
use onionmsg.Ed25519.{Scheme, toy, all_bytes, public_of}
use onionmsg.Identity.{contact, new_identity, fingerprint, sign, fill_key_pair}
use onionmsg.Ed25519
use onionmsg.Conn.{
  read, padded, read_loop, read_payload, left_over, read_piece, more_after, unpacked, is_one,
  flag_byte, flush, read_string, buffer_write, Conn, frame, write_bytes, read_bytes, packed,
  bytes_to_int, int_to_bytes,
}
use onionmsg.Conn.Stream.{joined}
use onionmsg.Conn.RoundTrip.{read_bytes-write_bytes}
use onionmsg.Conn.ShortHeader.{read_bytes-split}
use onionmsg.Handshake.{write_random, read_proof, proven, read_fingerprint_with_challenge}
use onionmsg.Handshake.Challenge.{
  Proves, read_fingerprint_with_challenge-Proves, read_fingerprint_with_challenge-honest,
}
use onionmsg.Tests.Data.{framed, bob_key, bob_fp, bob_contact, repeat, uncompressed}

abbrev silent : Conn
silent = record { arrived = []; buffered = []; sent = [] }

abbrev hearing : List Bytes → Conn
hearing pieces = record silent { arrived = pieces }

read_bytes-write_bytes_example :
    let d = hearing ((2 ∷ 0 ∷ 0 ∷ 0 ∷ 0 ∷ 104 ∷ []) ∷ (105 ∷ 33 ∷ []) ∷ []) in
    ((read_bytes uncompressed d).0 ≡ ok (codes "hi"))
    × (joined (read_bytes uncompressed d).1.arrived ≡ codes "!")
unfolding write_bytes frame packed int_to_bytes buffer_write
read_bytes-write_bytes_example =
    read_bytes-write_bytes uncompressed (codes "hi") (codes "!") silent
      (record silent { buffered = framed (codes "hi") })
      (hearing ((2 ∷ 0 ∷ 0 ∷ 0 ∷ 0 ∷ 104 ∷ []) ∷ (105 ∷ 33 ∷ []) ∷ [])) 7 refl
      (omega arith, (omega arith, tt)) (omega arith) refl

read_bytes-split_example :
    (read_bytes uncompressed (hearing ((5 ∷ []) ∷ (0 ∷ 0 ∷ 0 ∷ 0 ∷ codes "hello") ∷ []))).0
    ≡ ok (0 ∷ 0 ∷ 0 ∷ codes "he")
unfolding frame packed int_to_bytes
read_bytes-split_example =
    read_bytes-split uncompressed (codes "hello") (framed (codes "hello"))
      (hearing ((5 ∷ []) ∷ (0 ∷ 0 ∷ 0 ∷ 0 ∷ codes "hello") ∷ [])) (omega arith) (omega arith) refl
      refl

-- Bob's answer to a challenge of 32 bytes.
abbrev answering : Bytes → Conn
answering sig = hearing (framed bob_fp ∷ framed sig ∷ [])

abbrev challenge : Bytes
challenge = repeat 32 5

abbrev proof : Bytes
proof = repeat 32 2 ++ challenge

abbrev asked : List Bytes → Conn
asked pieces = record silent { arrived = pieces; sent = framed challenge }

read_fingerprint_with_challenge-honest_example :
    read_fingerprint_with_challenge uncompressed toy challenge (answering proof)
    ≡ (ok bob_fp, asked [])
unfolding write_random write_bytes frame packed int_to_bytes flag_byte buffer_write flush
    read_string read_bytes read read_piece left_over padded bytes_to_int read_payload read_loop
    more_after unpacked is_one toy all_bytes new_identity fill_key_pair public_of fingerprint encode
    char_of sign Ed25519.sign
read_fingerprint_with_challenge-honest_example =
    read_fingerprint_with_challenge-honest uncompressed toy challenge bob_key [] contact bob_contact
      (answering proof) (asked (framed proof ∷ [])) (asked []) proof refl refl (λ e. ground arith)
      refl refl refl refl

read_fingerprint_with_challenge-Proves_example : Proves toy challenge bob_fp
unfolding write_random write_bytes frame packed int_to_bytes flag_byte buffer_write flush
    read_string read_bytes read read_piece left_over padded bytes_to_int read_payload read_loop
    more_after unpacked is_one toy all_bytes decode digit_of decode_groups
    read_fingerprint_with_challenge read_proof proven Ed25519.verify same
read_fingerprint_with_challenge-Proves_example =
    read_fingerprint_with_challenge-Proves uncompressed toy challenge (answering proof) (asked [])
      bob_fp refl refl
