-- ===== src/Api/Requests.antt =====
-- internal/api/util.go: requests, responses, and the parts that the routes of api.go share.
use onionmsg.Base.{
  ℕ, Bool, if◌then◌else◌, List, [], ◌∷◌, ◌++◌, Option, none, some, Bytes, Outcome, Error, ok, err,
  panic, codes, connection_error, malformed_json,
}
use onionmsg.Exec.{Exec, lift}
use onionmsg.Conn.Stream.{joined}
use onionmsg.Message.{Message, MessageContent, Reply, no_reply, reply_to}
use onionmsg.Room.{RoomInfo}
use onionmsg.Daemon.State.{RoomRequest}
use onionmsg.Daemon.Session.{Blobs}

-- The body arrives in pieces, and may break off after them.
pub record Body : Type 0 where
  pub pieces : List Bytes
  pub broken : Bool

-- `req.FormValue` and `req.Header.Get`: the empty text where there is none.
pub record Request : Type 0 where
  pub form_value : Bytes → Bytes
  pub header : Bytes → Bytes
  pub body : Body

pub record Response : Type 0 where
  pub status : ℕ
  pub headers : List (Bytes × Bytes)
  pub body : Bytes

-- Of `encoding/json`, `uuid`, `strconv`, `mime` and the errors, what the routes use; a number that
-- is negative is taken for 0.
pub record Codec : Type 0 where
  pub parse_uuid : Bytes → Option Bytes
  pub atoi : Bytes → Option ℕ
  pub unmarshal_ids : Bytes → Option (List Bytes)
  pub unmarshal_message : Bytes → Option Message
  pub marshal_ids : List Bytes → Option Bytes
  pub marshal_requests : List RoomRequest → Option Bytes
  pub marshal_info : RoomInfo → Option Bytes
  pub marshal_infos : List RoomInfo → Option Bytes
  pub marshal_messages : List Message → Option Bytes
  pub type_by_name : Bytes → Bytes
  pub error_text : Error → Bytes

-- What the routes call of the daemon.
pub record Backend (S : Type 0) : Type 0 where
  pub tor_info : Option Bytes
  pub list_contact_ids : S → List Bytes
  pub create_contact_id : Exec S Bytes
  pub delete_contact : Bytes → Exec S (Unit {0})
  pub request_list : S → List RoomRequest
  pub accept_room_request : Bytes → Exec S (Unit {0})
  pub delete_room_request : Bytes → S → S
  pub room_info : Bytes → S → Outcome RoomInfo
  pub rooms : S → Outcome (List RoomInfo)
  pub create_room : List Bytes → Exec S (Unit {0})
  pub delete_room : Bytes → Exec S (Unit {0})
  pub add_peer_to_room : Bytes → Bytes → Exec S (Unit {0})
  pub send_message : Bytes → MessageContent → Exec S (Unit {0})
  pub list_messages : Bytes → ℕ → S → Outcome (List Message)

pub record Host (S : Type 0) : Type 0 where
  pub core : S
  pub blobs : Blobs

-- A request does not come back to its handler: what a handler makes is the response.
abbrev pub Handler : Type 0 → Type 0
Handler S = Request → Exec (Host S) Response

abbrev pub bad_request : ℕ
bad_request = 400

abbrev pub not_found : ℕ
not_found = 404

abbrev pub internal_server_error : ℕ
internal_server_error = 500

-- A handler that wrote nothing.
abbrev pub empty : Response
empty = record { status = 200; headers = []; body = [] }

-- `http.Error`
unfoldable pub http_error : Bytes → ℕ → Response
http_error text code = record {
  status = code;
  headers = (codes "Content-Type", codes "text/plain; charset=utf-8") ∷ [];
  body = text ++ codes "\n";
}

unfoldable pub set_json_content_header : Response → Response
set_json_content_header w = record w {
  headers = w.headers ++ ((codes "Content-Type", codes "application/json") ∷ []);
}

-- `w.Write(raw)`
unfoldable pub write_body : Bytes → Response → Response
write_body raw w = record w { body = w.body ++ raw }

-- `json.Marshal(v)` gives `raw`, or fails.
unfoldable pub send_serialized : Codec → Option Bytes → Response
unfolding set_json_content_header write_body http_error
send_serialized k none = http_error (k.error_text malformed_json) internal_server_error
send_serialized k (some raw) = write_body raw (set_json_content_header empty)

-- `ioutil.ReadAll(req.Body)`
unfoldable pub read_all : Body → Outcome Bytes
read_all b = if b.broken then err connection_error else ok (joined b.pieces)

reply_of_raw : Option Message → Outcome Reply
reply_of_raw none = err malformed_json
reply_of_raw (some m) = ok (reply_to m)

reply_from_raw : Codec → Bytes → Outcome Reply
unfolding reply_of_raw
reply_from_raw k [] = ok no_reply
reply_from_raw k (b ∷ raw) = reply_of_raw (k.unmarshal_message (b ∷ raw))

unfoldable pub reply_from_header : Codec → Request → Outcome Reply
unfolding reply_from_raw
reply_from_header k req = reply_from_raw k (req.header (codes "X-ReplyTo"))

module _ {S : Type 0} where
  abbrev pub on_core : {A : Type 0} → Exec S A → Exec (Host S) A
  on_core m h = let (o, t) = m h.core in (o, record h { core = t })

  abbrev pub respond : Response → Exec (Host S) Response
  respond w = lift (ok w)

  abbrev pub answered :
      {A : Type 0}
      → Outcome A
      → (Error → Response)
      → (A → Exec (Host S) Response)
      → Exec (Host S) Response
  answered (ok a) refuse k h = k a h
  answered (err e) refuse k h = (ok (refuse e), h)
  answered panic refuse k h = (panic, h)

  -- A call, the response to its error, and what is done with its value.
  abbrev pub try :
      {A : Type 0}
      → Exec (Host S) A
      → (Error → Response)
      → (A → Exec (Host S) Response)
      → Exec (Host S) Response
  try m refuse k h = let (o, t) = m h in answered o refuse k t
