-- ===== src/Api/Commands.antt =====
-- What the routes of messages and commands of internal/api/api.go hand to the daemon.
use onionmsg.Base.{
  ◌≡◌, ◌≢◌, ◌≤◌, ◌<◌, refl, ap, true, false, ltb, lt→ltb, [], ◌∷◌, none, Bytes, length, Outcome, ok,
  codes, arith, Lacks, split-append, split-Lacks,
}
use onionmsg.Message.{
  MessageContent, MessageMeta, Reply, message, content, is_command, command_delimiter,
}
use onionmsg.Command.{construct_command}
use onionmsg.Api.Requests.{
  Request, Response, Codec, Backend, Host, bad_request, http_error, internal_server_error, empty,
  respond, read_all, reply_from_header,
}
use onionmsg.Api.Blame.{answered-still}
use onionmsg.Api.Routes.{max_message_size, refused, message_type, send_content, send_message}

module _ {S : Type 0} (k : Codec) (b : Backend S) where
  abbrev pub sent_content : Bytes → Bytes → Reply → MessageContent
  sent_content command raw reply =
      content (message_type k b command) reply none (construct_command raw command)

  -- The members' side takes what is sent with a command for that command.
  construct_command-is_command :
      (command raw sig : Bytes) (meta : MessageMeta) (reply : Reply)
      → command ≢ []
      → Lacks command_delimiter command
      → is_command (message meta (sent_content command raw reply) sig) ≡ ok (true, command)
  unfolding construct_command is_command message_type
  construct_command-is_command [] raw sig meta reply some_command lacks = absurd (some_command refl)
  construct_command-is_command (c ∷ command) [] sig meta reply some_command lacks =
      rw (split-Lacks command_delimiter (c ∷ command) lacks) refl
  construct_command-is_command (c ∷ command) (r ∷ raw) sig meta reply some_command lacks =
      rw (split-append command_delimiter (c ∷ command) (r ∷ raw) lacks) refl

  -- A readable body of more than 32768 bytes is answered with 400, for messages and commands alike, and
  -- nothing is changed.
  pub send_message-too_large :
      (command raw : Bytes) (req : Request) (h : Host S)
      → read_all req.body ≡ ok raw
      → max_message_size < length raw
      → (w : Response) × (send_message k b command req h ≡ (ok w, h)) × (w.status ≡ bad_request)
  unfolding send_message http_error
  send_message-too_large command raw req h read big = (
    http_error (codes "message too big, cannot be greater 32768") bad_request,
    rw (read, lt→ltb max_message_size (length raw) big) refl,
    refl,
  )

  -- A command that is not empty and has no space, sent with a readable body of at most 32768 bytes and
  -- no reply that cannot be read: the state of the daemon afterwards is that after one call of its
  -- `SendMessage` for the room that the request names, and every message with the content that is
  -- handed over is a command message, by that very command, to whoever receives it.
  pub send_message-hands_over :
      (command raw : Bytes) (reply : Reply) (req : Request) (h : Host S)
      → command ≢ []
      → Lacks command_delimiter command
      → read_all req.body ≡ ok raw
      → length raw ≤ max_message_size
      → reply_from_header k req ≡ ok reply
      → ((send_message k b command req h).1.core
          ≡ (b.send_message
              (req.form_value (codes "uuid"))
              (sent_content command raw reply)
              h.core).1)
        × ((meta : MessageMeta) (sig : Bytes)
            → is_command (message meta (sent_content command raw reply) sig) ≡ ok (true, command))
  unfolding send_message send_content
  send_message-hands_over command raw reply req h some_command lacks read small replied =
      let fits : ltb max_message_size (length raw) ≡ false = ground arith in
      let sent : Outcome (Unit {0}) × S =
        b.send_message (req.form_value (codes "uuid")) (sent_content command raw reply) h.core in
      (
        rw (read, fits, replied)
            (ap (λ t. t.core)
              (answered-still sent.0 (refused k b internal_server_error) (λ u. respond empty)
                (record h { core = sent.1 }) (λ u. refl))),
        λ meta sig. construct_command-is_command command raw sig meta reply some_command lacks,
      )
