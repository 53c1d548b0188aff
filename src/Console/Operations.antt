-- ===== src/Console/Operations.antt =====
-- The prompt changes the daemon as the operations of internal/daemon/util.go do, which internal/api
-- calls.
use onionmsg.Base.{
  ◌≡◌, refl, sym, ◌∙◌, List, [], ◌∷◌, ◌++◌, Option, some, Bytes, Option-cases, inl, inr, ok, err,
  panic, Error, Outcome,
}
use onionmsg.Exec.{Exec, done, resume, lift, ◌>>◌}
use onionmsg.Ed25519.{Scheme}
use onionmsg.Identity.{Identity, contact, new_identity, fingerprint}
use onionmsg.Message.{Marshal}
use onionmsg.Tor.{Controller}
use onionmsg.Daemon.State.{Daemon, get_room}
use onionmsg.Daemon.Services.{Ports, create_contact_id, register_cont_id, deregister_cont_id}
use onionmsg.Daemon.Requests.{send_message, send_in}
use onionmsg.Daemon.Rooms.{delete_contact_id}
use onionmsg.Lifecycle.{Storage}
use onionmsg.Console.{
  Said, Console, Fresh, say, read_line, trimmed, told, or_tell, on_daemon, Verb, text_content,
}
use onionmsg.Console.Commands.{
  run_verb, add_contact, remove_contact, in_room, room_found, write_message,
}

module _ (g : Storage) (ctrl : Controller) (ports : Ports) (c : Scheme) (j : Marshal)
    (parse : Bytes → Option Bytes) (show : Bytes → Bytes) where
  -- A call whose error is only printed.
  or_tell-daemon :
      {A : Type 0} (f : Error → Said) (m : Exec Daemon A) (s : Console)
      → (or_tell f (on_daemon m) (λ u. done) s).1.process.daemon ≡ (m s.process.daemon).1
  unfolding say
  or_tell-daemon {A} f m s = go (m s.process.daemon)
    where
      go :
          (r : Outcome A × Daemon)
          → (told f r.0
              (λ u. done)
              (record s { process = record s.process { daemon = r.1 } })).1.process.daemon
            ≡ r.1
      go (ok a, t) = refl
      go (err e, t) = refl
      go (panic, t) = refl

  said-daemon :
      (m : Exec Daemon (Unit {0})) (lines : List Said) (s : Console)
      → ((do on_daemon m; say lines) s).1.process.daemon ≡ (m s.process.daemon).1
  unfolding say
  said-daemon m lines s = go (m s.process.daemon)
    where
      go :
          (r : Outcome (Unit {0}) × Daemon)
          → (resume r.0
              (λ u. say lines)
              (record s { process = record s.process { daemon = r.1 } })).1.process.daemon
            ≡ r.1
      go (ok u, t) = refl
      go (err e, t) = refl
      go (panic, t) = refl

  lifted :
      {A B : Type 0} (o : Outcome A) (k : A → Outcome B) (t : Daemon)
      → (resume o (λ a. lift (k a)) t).1 ≡ t
  lifted (ok a) k t = refl
  lifted (err e) k t = refl
  lifted panic k t = refl

  abbrev typed : List Bytes → Console → Console
  typed lines s = record s { lines = lines }

  remove_contact-daemon :
      (line : Bytes) (rest : List Bytes) (s : Console)
      → (remove_contact g ctrl ports c j parse show (typed (line ∷ rest) s)).1.process.daemon
        ≡ (delete_contact_id ctrl ports (trimmed line) s.process.daemon).1
  unfolding remove_contact read_line say delete_contact_id
  remove_contact-daemon line rest s =
      or_tell-daemon Said.failure (deregister_cont_id ctrl ports (trimmed line))
        (record s { lines = rest; said = s.said ++ (Said.enter_fingerprint ∷ []) })

  add_contact-daemon :
      (fresh : Fresh) (s : Console)
      → (add_contact g ctrl ports c j parse show fresh s).1.process.daemon
        ≡ (create_contact_id ctrl ports fresh.key s.process.daemon).1
  unfolding add_contact create_contact_id
  add_contact-daemon fresh s = go (new_identity contact fresh.key [])
    where
      go :
          (o : Outcome Identity)
          → (resume o
              (λ i. or_tell Said.failure (on_daemon (register_cont_id ctrl ports i)) (λ u. done))
              s).1.process.daemon
            ≡ (resume o
                (λ i. do register_cont_id ctrl ports i; lift (ok (fingerprint i)))
                s.process.daemon).1
      go (ok i) =
          or_tell-daemon Said.failure (register_cont_id ctrl ports i) s
          ∙ sym (
              lifted (register_cont_id ctrl ports i s.process.daemon).0 (λ u. ok (fingerprint i))
                (register_cont_id ctrl ports i s.process.daemon).1)
      go (err e) = refl
      go panic = refl

  send-daemon :
      (fresh : Fresh) (uid line : Bytes) (rest : List Bytes) (s : Console)
      → (in_room g ctrl ports c j parse show
          (write_message g ctrl ports c j parse show fresh)
          (typed (uid ∷ line ∷ rest) s)).1.process.daemon
        ≡ (send_message ctrl ports c j parse fresh.now
            (trimmed uid)
            (text_content (trimmed line))
            s.process.daemon).1
  unfolding in_room room_found read_line say send_message write_message
  send-daemon fresh uid line rest s = elim (Option-cases (parse (trimmed uid))) [
    | inl e ↦ rw (e, in_room, send_message) refl
    | inr (id, e) ↦ elim (Option-cases (get_room id s.process.daemon)) [
      | inl gone ↦ rw (e, in_room, send_message) (rw (gone, room_found) refl)
      | inr (r, found) ↦
          rw (e, in_room, send_message)
            (rw (found, room_found)
              (said-daemon
                (send_in ctrl ports c j (text_content (trimmed line)) fresh.now id (some r))
                (Said.sent_message ∷ []) (record s { lines = rest })))
    ]
  ]

  -- Whatever is typed: with the next two lines of the input, `rm_cont` does to the daemon what
  -- `DeleteContactID` does with the first, `send_message` what `sendMessage` does with the first as the
  -- id of the room and the second as the text, and `add_cont` what `createContactID` does, whether
  -- these succeed, fail or panic. The lines are trimmed of spaces.
  pub run_verb-operations :
      (fresh : Fresh) (cmd first second : Bytes) (rest : List Bytes) (s : Console)
      → let run : Verb → Daemon = λ v.
        (run_verb g ctrl ports c j parse show fresh cmd v
          (record s { lines = first ∷ second ∷ rest })).1.process.daemon in
        (run Verb.rm_cont ≡ (delete_contact_id ctrl ports (trimmed first) s.process.daemon).1)
        × (run Verb.send_message
            ≡ (send_message ctrl ports c j parse fresh.now
                (trimmed first)
                (text_content (trimmed second))
                s.process.daemon).1)
        × (run Verb.add_cont ≡ (create_contact_id ctrl ports fresh.key s.process.daemon).1)
  unfolding run_verb say
  run_verb-operations fresh cmd first second rest s = (
    remove_contact-daemon first (second ∷ rest) s,
    send-daemon fresh first second rest
        (record s { said = s.said ++ (Said.enter_room_and_message ∷ []) }),
    add_contact-daemon fresh (record s { lines = first ∷ second ∷ rest }),
  )
