-- ===== src/Tests/Crypto.antt =====
-- Identities, messages, contacts and maps of times, with the scheme without secrecy.
use onionmsg.Base.{
  ◌≡◌, refl, Bool, true, [], ◌∷◌, ◌++◌, none, some, codes, ok, arith, Bytes, same, ◌↔◌,
}
use onionmsg.Base64.{encode, decode, char_of, digit_of, decode_groups}
use onionmsg.Base64.RoundTrip.{decode-encode}
use onionmsg.Ed25519
use onionmsg.Ed25519.{Scheme, toy, all_bytes, public_of}
use onionmsg.Identity.{
  Identity, remote, self, contact, new_identity, fingerprint, sign, verify, fill_key_pair,
}
use onionmsg.Identity.Keys.{verify-sign}
use onionmsg.Message.{
  Message, MessageContent, content, utc, text, no_reply, sig_is_valid, new_message, meta_of,
  content_of,
}
use onionmsg.Message.Signature.{Authentic, sig_is_valid_iff, new_message-Authentic}
use onionmsg.Peer.{Peer, idle, no_wait, new_messaging_peer}
use onionmsg.Contact.{ContactRequest, ContactResponse, contact_response, peer_of_response}
use onionmsg.Contact.Agreement.{peer_of_response-contact_response, peer_of_response-signed}
use onionmsg.Tests.Data.{
  alice_key, bob_key, alice_fp, bob_fp, alice, fresh_alice, bob, bob_contact, plain, says, room_id,
  repeat,
}

abbrev hello : MessageContent
hello = content text no_reply none (codes "hello")

sig_is_valid_iff_example :
    let m = says bob_fp 1 (codes "hi") in
    ((v : Bool) × (sig_is_valid toy plain m ≡ ok v))
    × ((sig_is_valid toy plain m ≡ ok true) ↔ Authentic toy plain m)
sig_is_valid_iff_example = sig_is_valid_iff toy plain (says bob_fp 1 (codes "hi"))

new_message-Authentic_example :
    (m : Message) × (new_message toy plain 5 hello fresh_alice ≡ ok m)
    × (meta_of m ≡ record { sender = fingerprint fresh_alice; time = 5; zone = utc })
    × (content_of m ≡ hello)
    × Authentic toy plain m
unfolding toy all_bytes new_identity fill_key_pair public_of Authentic
new_message-Authentic_example =
    new_message-Authentic toy plain alice_key refl self [] fresh_alice 5 hello (λ e. ground arith)
      refl tt

verify-sign_example :
    (j : Identity) × (s : Bytes) × (new_identity remote [] (fingerprint bob_contact) ≡ ok j)
    × (sign toy bob_contact (codes "proof") ≡ ok s)
    × (verify toy j (codes "proof") s ≡ ok true)
unfolding toy all_bytes new_identity fill_key_pair public_of
verify-sign_example =
    verify-sign toy bob_key refl contact [] [] (codes "proof") bob_contact (λ e. ground arith) refl

decode-encode_example : decode (encode (1 ∷ 2 ∷ 255 ∷ 4 ∷ [])) ≡ ok (1 ∷ 2 ∷ 255 ∷ 4 ∷ [])
decode-encode_example = decode-encode (1 ∷ 2 ∷ 255 ∷ 4 ∷ []) (ground arith)

abbrev contact_request_of_alice : ContactRequest
contact_request_of_alice = record { remote_fp = bob_fp; local_fp = alice_fp; id = room_id }

peer_of_response-contact_response_example :
    (resp : ContactResponse) × (p : Peer) × (contact_response toy bob_contact fresh_alice
        contact_request_of_alice
      ≡ ok resp)
    × (peer_of_response toy bob room_id resp ≡ ok p)
    × (fingerprint p.r_identity ≡ fingerprint fresh_alice)
unfolding toy all_bytes new_identity fill_key_pair public_of fingerprint encode char_of decode
    digit_of decode_groups
peer_of_response-contact_response_example =
    peer_of_response-contact_response toy bob_key alice_key [] [] [] bob_contact fresh_alice bob
      contact_request_of_alice refl refl refl refl refl

peer_of_response-signed_example :
    (verify toy bob (alice_fp ++ room_id) (repeat 32 2 ++ (alice_fp ++ room_id)) ≡ ok true)
    × ((key : Bytes) × (decode alice_fp ≡ ok key) × (alice.pub_key ≡ some key))
unfolding toy all_bytes new_identity fill_key_pair public_of fingerprint encode char_of decode
    digit_of decode_groups peer_of_response verify same Ed25519.verify new_messaging_peer
peer_of_response-signed_example =
    peer_of_response-signed toy bob room_id
      (record { conv_fp = alice_fp; sig = repeat 32 2 ++ (alice_fp ++ room_id) })
      (record {
        r_identity = record bob { pub_key = alice.pub_key };
        last_sync_state = [];
        queue = idle;
        wait = no_wait;
      })
      refl
