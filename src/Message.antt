-- ===== src/Message.antt =====
-- internal/types/message.go: messages and their signatures. `encoding/json` is a parameter, since
-- only the bytes that it makes of a message's parts are signed. A time is a count of nanoseconds.
pub mod Signature
use onionmsg.Base.{
  ℕ, Bool, true, false, ◌==◌, if◌then◌else◌, List, [], ◌∷◌, ◌++◌, Option, none, some, Bytes, codes,
  length, split, index, Outcome, ok, err, panic, ◌>>=◌,
}
use onionmsg.Base64.{decode}
use onionmsg.Ed25519
use onionmsg.Ed25519.{Scheme}
use onionmsg.Identity.{Identity, fingerprint}

-- The four types of the program, and any other text that a peer may send.
pub data ContentType : Type 0 where
  text cmd file sticker : ContentType
  other : Bytes → ContentType

pub record BlobMeta : Type 0 where
  pub id : Bytes
  pub name : Bytes
  pub type : Bytes
  pub size : ℕ

-- `time.Time`: the instant in nanoseconds, and its zone as `encoding/json` writes it.
pub record MessageMeta : Type 0 where
  pub sender : Bytes
  pub time : ℕ
  pub zone : Bytes

abbrev pub utc : Bytes
utc = codes "Z"

-- `Content.ReplyTo` points to a message, or is nil.
mutual
  pub data Message : Type 0 where
    message : MessageMeta → MessageContent → Bytes → Message

  pub data MessageContent : Type 0 where
    content : ContentType → Reply → Option BlobMeta → Bytes → MessageContent

  pub data Reply : Type 0 where
    no_reply : Reply
    reply_to : Message → Reply

abbrev pub meta_of : Message → MessageMeta
meta_of (message m c s) = m

abbrev pub content_of : Message → MessageContent
content_of (message m c s) = c

abbrev pub sig_of : Message → Bytes
sig_of (message m c s) = s

abbrev pub type_of : MessageContent → ContentType
type_of (content t r b d) = t

abbrev pub reply_of : MessageContent → Reply
reply_of (content t r b d) = r

abbrev pub blob_of : MessageContent → Option BlobMeta
blob_of (content t r b d) = b

abbrev pub data_of : MessageContent → Bytes
data_of (content t r b d) = d

-- `json.Marshal` on the two signed fields of a message.
pub record Marshal : Type 0 where
  pub marshal_meta : MessageMeta → Bytes
  pub marshal_content : MessageContent → Bytes

unfoldable pub contains_blob : Message → Bool
contains_blob m = elim (blob_of (content_of m)) [ none ↦ false | some b ↦ true ]

-- `Content.Type == ContentTypeCmd`
abbrev pub is_cmd : ContentType → Bool
is_cmd cmd = true
is_cmd _ = false

abbrev pub command_delimiter : ℕ
command_delimiter = b' '

unfoldable pub is_command : Message → Outcome (Bool × Bytes)
is_command m = do
  command ← index (split command_delimiter (data_of (content_of m))) 0
  ok (is_cmd (type_of (content_of m)), command)

module _ (c : Scheme) (j : Marshal) where
  -- Every field but `Sig`, in the order of the struct.
  unfoldable pub sign_data : MessageMeta → MessageContent → Bytes
  sign_data m k = j.marshal_meta m ++ j.marshal_content k

  unfoldable pub sign : Bytes → Message → Outcome Message
  sign key (message m k s) = do sig ← Ed25519.sign c key (sign_data m k); ok (message m k sig)

  unfoldable pub new_message : ℕ → MessageContent → Identity → Outcome Message
  unfolding sign
  new_message now k sender = elim sender.priv [
    | none ↦ panic
    | some key ↦
        sign key (message (record { sender = fingerprint sender; time = now; zone = utc }) k [])
  ]

  -- The body of `SigIsValid`, given the verdict on the message that is replied to.
  unfoldable pub check_sig : Outcome Bool → MessageMeta → MessageContent → Bytes → Outcome Bool
  check_sig chain m k sig = elim (decode m.sender) [
    | ok raw ↦
        if length raw == 32
        then (do
          valid ← chain
          if valid then Ed25519.verify c raw (sign_data m k) sig else ok false)
        else ok false
    | err e ↦ ok false
    | panic ↦ panic
  ]

  unfoldable mutual
    pub sig_is_valid : Message → Outcome Bool
    sig_is_valid (message m (content t r b d) sig) =
        check_sig (reply_is_valid r) m (content t r b d) sig

    pub reply_is_valid : Reply → Outcome Bool
    reply_is_valid no_reply = ok true
    reply_is_valid (reply_to m) = sig_is_valid m
