-- ===== src/Contact.antt =====
-- How a contact becomes a peer: `createPeerViaContactID` of internal/types/room.go, and the part of
-- `contClientHandler` of internal/daemon/contact_handler.go that answers it.
pub mod Agreement
use onionmsg.Base.{
  ℕ, Bool, true, false, if◌then◌else◌, List, [], ◌∷◌, ◌++◌, none, some, Option, Bytes, Outcome, ok,
  err, panic, invalid_signature, connection_error,
}
use onionmsg.Base
use onionmsg.Exec.{Exec, done, raise, lift, modify, ◌>>=◌, ◌>>◌}
use onionmsg.Ed25519.{Scheme}
use onionmsg.Identity.{Identity, IdentityMeta, remote, new_identity, sign, verify, fingerprint, url}
use onionmsg.Peer.{Peer, new_messaging_peer}
use onionmsg.Room.{Room}
use onionmsg.Conn.{Conn, Zstd, write_struct, read_struct, flush}

pub record ContactRequest : Type 0 where
  pub remote_fp : Bytes
  pub local_fp : Bytes
  pub id : Bytes

pub record ContactResponse : Type 0 where
  pub conv_fp : Bytes
  pub sig : Bytes

module _ (c : Scheme) where
  -- `Verify` is called twice, and its error counts as a refusal the first time.
  unfoldable pub peer_of_response : Identity → Bytes → ContactResponse → Outcome Peer
  peer_of_response contact_identity id resp =
      elim (verify c contact_identity (resp.conv_fp ++ id) resp.sig) [
        | ok true ↦
            Base.◌>>=◌ (new_identity remote [] resp.conv_fp)
              λ peer_id. ok (new_messaging_peer peer_id)
        | ok false ↦ err invalid_signature
        | err e ↦ err invalid_signature
        | panic ↦ panic
      ]

  unfoldable pub contact_request : Identity → Room → ContactRequest
  contact_request contact_identity r = record {
    remote_fp = fingerprint contact_identity;
    local_fp = fingerprint r.self;
    id = r.id;
  }

  -- An error of `Sign` is logged, and the signature is then empty.
  unfoldable pub contact_response : Identity → Identity → ContactRequest → Outcome ContactResponse
  contact_response cont conv_id req = elim (sign c cont (fingerprint conv_id ++ req.id)) [
    | ok sig ↦ ok (record { conv_fp = fingerprint conv_id; sig = sig })
    | err e ↦ ok (record { conv_fp = fingerprint conv_id; sig = [] })
    | panic ↦ panic
  ]

  -- `conn` is what dialling the contact's URL gives, and the two functions are those of
  -- `encoding/json`.
  unfoldable pub create_peer_via_contact_id :
      Zstd
      → (ContactRequest → Option Bytes)
      → (Bytes → Option ContactResponse)
      → Identity
      → Room
      → Exec Conn Peer
  create_peer_via_contact_id z marshal unmarshal contact_identity r = do
    n ← write_struct z marshal (contact_request contact_identity r)
    modify flush
    resp ← read_struct z unmarshal
    lift (peer_of_response contact_identity r.id resp)

-- `remoteID.Meta.Admin = true`: an error of `NewIdentity` is dropped, and the metadata is then a nil
-- pointer.
unfoldable pub inviter : ContactRequest → Outcome Identity
inviter req = elim (new_identity remote [] req.local_fp) [
  | ok i ↦ elim i.meta [
    | none ↦ panic
    | some m ↦ ok (record i { meta = some (record m { admin = true }) })
  ]
  | err e ↦ panic
  | panic ↦ panic
]
