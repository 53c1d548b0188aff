-- ===== src/Console/Rooms.antt =====
-- `add_room` of the prompt and `createRoom` of internal/daemon/util.go.
use onionmsg.Base.{
  length, ◌≡◌, ◌≢◌, refl, ap, sym, ◌∙◌, false, trim, List, [], ◌∷◌, ◌++◌, map, append_assoc,
  append-nil, Option, Bytes, same, ok, err, panic, Outcome,
}
use onionmsg.Exec.{resume}
use onionmsg.Ed25519.{Scheme}
use onionmsg.Identity.{Identity, remote, new_identity, fingerprint}
use onionmsg.Message.{Marshal}
use onionmsg.Room.{Room}
use onionmsg.Tor.{Controller}
use onionmsg.Daemon.State.{Daemon}
use onionmsg.Daemon.Services.{Ports, register_room}
use onionmsg.Daemon.Rooms.{create_room, new_room, identities}
use onionmsg.Lifecycle.{Storage}
use onionmsg.Console.{Said, Console, Fresh, Verb, say, trimmed, told, read_contacts}
use onionmsg.Console.Commands.{run_verb, make_room, made_room, with_contacts}

-- Lines that each name a key, up to an empty line: the identities that they name are read.
abbrev pub Named : List Bytes → List Identity → Type 0
Named [] is = is ≡ []
Named (line ∷ lines) is =
    (i : Identity) × (rest : List Identity) × (is ≡ i ∷ rest)
    × (new_identity remote [] (trimmed line) ≡ ok i)
    × (trimmed line ≢ [])
    × Named lines rest

not_empty : (s : Bytes) → s ≢ [] → same s [] ≡ false
unfolding same
not_empty [] h = absurd (h refl)
not_empty (b ∷ s) h = refl

read_contacts-Named :
    (lines : List Bytes) (is ids : List Identity) (rest : List Bytes) (s : Console)
    → Named lines is
    → read_contacts (lines ++ ([] ∷ rest)) ids s ≡ (ok (ids ++ is), record s { lines = rest })
unfolding read_contacts trim same
read_contacts-Named [] is ids rest s named = rw named (rw (append-nil ids) refl)
read_contacts-Named (line ∷ lines) is ids rest s (i, others, e, made, typed, named) =
    rw (not_empty (trimmed line) typed, read_contacts)
      (rw (made, read_contacts)
        (read_contacts-Named lines others (ids ++ (i ∷ [])) rest
            (record s { lines = lines ++ ([] ∷ rest) }) named
          ∙ ap (λ x. (ok x, record s { lines = rest }))
              (append_assoc ids (i ∷ []) others ∙ ap (λ x. ids ++ x) (sym e))))

module _ (g : Storage) (ctrl : Controller) (ports : Ports) (c : Scheme) (j : Marshal)
    (parse : Bytes → Option Bytes) (show : Bytes → Bytes) where
  identities-lem :
      (fresh : Fresh) (lines : List Bytes) (is : List Identity)
      → Named lines is
      → identities c j fresh.make fresh.times (map trimmed lines) ≡ ok is
  unfolding identities
  identities-lem fresh [] is named = rw named refl
  identities-lem fresh (line ∷ lines) is (i, others, e, made, typed, named) =
      rw made (rw (identities-lem fresh lines others named) (rw e refl))

  made-daemon :
      (r : Room) (s : Console)
      → (made_room g ctrl ports c j parse show r s).1.process.daemon
        ≡ (register_room ctrl ports r s.process.daemon).1
  unfolding made_room say
  made-daemon r s = go (register_room ctrl ports r s.process.daemon)
    where
      go :
          (o : Outcome (Unit {0}) × Daemon)
          → (told
              (λ e. Said.empty_line)
              o.0
              (λ u. say (Said.room_created (show r.id) (fingerprint r.self) ∷ []))
              (record s { process = record s.process { daemon = o.1 } })).1.process.daemon
            ≡ o.1
      go (ok u, t) = refl
      go (err e, t) = refl
      go (panic, t) = refl

  -- The lines after `add_room`, up to an empty one, each with the fingerprint of a contact: the prompt
  -- does to the daemon what `createRoom` does with those fingerprints, trimmed, whether it succeeds,
  -- fails or panics.
  pub run_verb-create_room :
      (fresh : Fresh) (cmd : Bytes) (lines : List Bytes) (i : Identity) (is : List Identity)
      (rest : List Bytes) (s : Console)
      → Named lines (i ∷ is)
      → (run_verb g ctrl ports c j parse show fresh cmd Verb.add_room
          (record s { lines = lines ++ ([] ∷ rest) })).1.process.daemon
        ≡ (create_room c j fresh.make fresh.times ctrl ports fresh.key fresh.id
            (map trimmed lines)
            s.process.daemon).1
  unfolding run_verb make_room with_contacts say create_room
  run_verb-create_room fresh cmd lines i is rest s named =
      let u : Console = record s {
        lines = lines ++ ([] ∷ rest);
        said = s.said ++ (Said.enter_contacts ∷ []);
      } in
      rw
        (
          identities-lem fresh lines (i ∷ is) named,
          read_contacts-Named lines (i ∷ is) [] rest u named,
        )
        (go (new_room c j fresh.make fresh.times fresh.key fresh.id (i ∷ is)))
    where
      v : Console
      v = record s {
        lines = rest;
        said = (s.said ++ (Said.enter_contacts ∷ [])) ++ (Said.trying (length (i ∷ is)) ∷ []);
      }

      go :
          (o : Outcome Room)
          → (told Said.failure o (made_room g ctrl ports c j parse show) v).1.process.daemon
            ≡ (resume o (register_room ctrl ports) s.process.daemon).1
      go (ok r) = made-daemon r v
      go (err e) = refl
      go panic = refl
