-- ===== src/Console/Turns.antt =====
-- A turn of the prompt keeps the rooms and contact identities in step with the hidden services.
use onionmsg.Base.{
  length, ◌≡◌, ◌≢◌, refl, ap, sym, ◌∙◌, true, false, Bool, Bool-cases, if◌then◌else◌, All, List, [],
  ◌∷◌, ◌++◌, map, Option, none, some, Option-cases, Outcome-cases, Bytes, same, inl, inr, ok, err,
  panic, Error, Outcome, >>=-eq-ok, ok-injective, arith,
}
use onionmsg.Base
use onionmsg.Exec.{Exec, write_or, done, ask, ◌>>=◌, ◌>>◌}
use onionmsg.Ed25519.{Scheme}
use onionmsg.Message.{Marshal}
use onionmsg.Room.{Room}
use onionmsg.Tor.{Controller}
use onionmsg.Daemon.State.{Daemon, get_room}
use onionmsg.Daemon.Services.{Ports}
use onionmsg.Daemon.Requests.{send_in}
use onionmsg.Daemon.InStep.{Laws, InStep}
use onionmsg.Daemon.InStep.Operations.{send_in-Stays}
use onionmsg.Lifecycle.{Storage, File, save_data_compressed}
use onionmsg.Console.{
  Said, Console, Fresh, Verb, say, read_line, trimmed, told, on_daemon, stop_each, verb_of,
  text_content,
}
use onionmsg.Console.Commands.{
  save_now, room_found, in_room, write_message, stop_rooms, stop_named, run_verb, take_turn,
}
use onionmsg.Console.Steady.{
  IsSound, Steady, stop_each-Kin, then-Steady, say-Steady, read_line-Steady,
}
use onionmsg.Console.Making.{
  exit_now-Steady, add_contact-Steady, remove_contact-Steady, make_room-Steady,
}

module _ (c : Scheme) (ctrl : Controller) (g : Storage) (ports : Ports) (j : Marshal)
    (parse : Bytes → Option Bytes) (show : Bytes → Bytes) (laws : Laws c ctrl) where
  write_message-Steady :
      (fresh : Fresh) (id : Bytes) (r : Room) (s : Console)
      → get_room id s.process.daemon ≡ some r
      → InStep c ctrl s.process.daemon
      → InStep c ctrl (write_message g ctrl ports c j parse show fresh id r s).1.process.daemon
  unfolding write_message read_line
  write_message-Steady fresh id r s found h = go s.lines refl
    where
      sent :
          (line : Bytes) (t : Console)
          → t.process.daemon ≡ s.process.daemon
          → InStep c ctrl
              ((do
                on_daemon (send_in ctrl ports c j (text_content line) fresh.now id (some r))
                say (Said.sent_message ∷ []))
                t).1.process.daemon
      sent line t same =
          then-Steady c ctrl
            (λ u. on_daemon (send_in ctrl ports c j (text_content line) fresh.now id (some r)) t)
            (λ u. say (Said.sent_message ∷ []))
            (λ u i.
              send_in-Stays c ctrl j ports (text_content line) fresh.now id (some r)
                t.process.daemon (ap (get_room id) same ∙ found) (rw same h))
            (λ u. say-Steady c ctrl (Said.sent_message ∷ [])) t (rw same h)

      go :
          (ls : List Bytes)
          → s.lines ≡ ls
          → InStep c ctrl (write_message g ctrl ports c j parse show fresh id r s).1.process.daemon
      go [] e = rw (e, write_message, read_line) (sent [] s refl)
      go (l ∷ ls) e =
          rw (e, write_message, read_line) (sent (trimmed l) (record s { lines = ls }) refl)

  in_room-Steady :
      (k : Bytes → Room → Exec Console (Unit {0}))
      → ((id : Bytes) (r : Room) (s : Console)
          → get_room id s.process.daemon ≡ some r
          → InStep c ctrl s.process.daemon
          → InStep c ctrl (k id r s).1.process.daemon)
      → Steady c ctrl (in_room g ctrl ports c j parse show k)
  unfolding in_room room_found
  in_room-Steady k steady =
      then-Steady c ctrl read_line _ (read_line-Steady c ctrl) (λ uid s h. named uid s h)
    where
      chosen :
          (id : Bytes) (o : Option Room) (s : Console)
          → get_room id s.process.daemon ≡ o
          → InStep c ctrl s.process.daemon
          → InStep c ctrl (room_found g ctrl ports c j parse show k id o s).1.process.daemon
      chosen id none s e h = say-Steady c ctrl (Said.no_such_room ∷ []) s h
      chosen id (some r) s e h = steady id r s e h

      named :
          (uid : Bytes) (s : Console)
          → InStep c ctrl s.process.daemon
          → InStep c ctrl
              ((elim (parse uid) as (λ o. Exec Console (Unit {0})) [
                | none ↦ say (Said.bad_uid ∷ [])
                | some id ↦ do
                  found ← on_daemon (ask (λ d. ok (get_room id d)))
                  room_found g ctrl ports c j parse show k id found
              ])
                s).1.process.daemon
      named uid s h = elim (Option-cases (parse uid)) [
        | inl e ↦ rw e (say-Steady c ctrl (Said.bad_uid ∷ []) s h)
        | inr (id, e) ↦ rw e (chosen id (get_room id s.process.daemon) s refl h)
      ]

  stop_rooms-Steady : (p : Room → Bool) → Steady c ctrl (stop_rooms g ctrl ports c j parse show p)
  unfolding stop_rooms
  stop_rooms-Steady p s h = go (stop_each p s.process.daemon.rooms) refl
    where
      d : Daemon
      d = s.process.daemon

      go :
          (o : Outcome (List Room))
          → stop_each p d.rooms ≡ o
          → InStep c ctrl (write_or (Base.◌>>=◌ o λ rs. ok (record d { rooms = rs })) d).1
      go (ok rs) e =
          let (fit, same) = stop_each-Kin c ctrl p d.rooms rs h.rooms e in
          record {
            served = rw same h.served;
            contacts = h.contacts;
            rooms = fit;
            requests = h.requests;
          }
      go (err f) e = h
      go panic e = h

  stop_named-Steady : Steady c ctrl (stop_named g ctrl ports c j parse show)
  unfolding stop_named
  stop_named-Steady =
      then-Steady c ctrl (say (Said.enter_room_id ∷ [])) _
        (say-Steady c ctrl (Said.enter_room_id ∷ []))
        (λ u.
          then-Steady c ctrl read_line _ (read_line-Steady c ctrl)
            (λ line. chosen line (same line [])))
    where
      chosen :
          (line : Bytes) (b : Bool)
          → Steady c ctrl (elim b as (λ x. Exec Console (Unit {0})) [
            | true ↦ done
            | false ↦ stop_rooms g ctrl ports c j parse show (λ r. same (show r.id) line)
          ])
      chosen line true s h = h
      chosen line false s h = stop_rooms-Steady (λ r. same (show r.id) line) s h

  run_verb-Steady :
      (fresh : Fresh) (cmd : Bytes) (v : Verb)
      → IsSound c fresh
      → Steady c ctrl (run_verb g ctrl ports c j parse show fresh cmd v)
  unfolding run_verb save_now say
  run_verb-Steady fresh cmd Verb.save sound s h =
      saved (save_data_compressed g s.process.daemon s.process.file)
    where
      saved :
          (r : Outcome (Unit {0}) × File)
          → InStep c ctrl
              (told Said.failure r.0
                (λ u. done)
                (record s { process = record s.process { file = r.1 } })).1.process.daemon
      saved (ok u, t) = h
      saved (err e, t) = h
      saved (panic, t) = h
  run_verb-Steady fresh cmd Verb.exit sound s h =
      exit_now-Steady c ctrl g ports j parse show laws s h
  run_verb-Steady fresh cmd Verb.add_cont sound s h =
      add_contact-Steady c ctrl g ports j parse show laws fresh sound s h
  run_verb-Steady fresh cmd Verb.rm_cont sound s h =
      remove_contact-Steady c ctrl g ports j parse show laws s h
  run_verb-Steady fresh cmd Verb.list_cont sound s h = h
  run_verb-Steady fresh cmd Verb.list_rooms sound s h = h
  run_verb-Steady fresh cmd Verb.add_room sound s h =
      make_room-Steady c ctrl g ports j parse show laws fresh sound s h
  run_verb-Steady fresh cmd Verb.send_message sound s h =
      in_room-Steady (write_message g ctrl ports c j parse show fresh) (write_message-Steady fresh)
        (record s { said = s.said ++ (Said.enter_room_and_message ∷ []) }) h
  run_verb-Steady fresh cmd Verb.list_messages sound s h =
      in_room-Steady _ (λ id r s found h. h)
        (record s { said = s.said ++ (Said.enter_room_uid ∷ []) }) h
  run_verb-Steady fresh cmd Verb.stop_room sound s h = stop_named-Steady s h
  run_verb-Steady fresh cmd Verb.stop_all_rooms sound s h = stop_rooms-Steady (λ r. true) s h
  run_verb-Steady fresh cmd Verb.unknown sound s h = h

  pub take_turn-InStep :
      (fresh : Fresh) (s : Console)
      → IsSound c fresh
      → InStep c ctrl s.process.daemon
      → InStep c ctrl (take_turn g ctrl ports c j parse show fresh s).1.process.daemon
  unfolding take_turn
  take_turn-InStep fresh s sound h =
      then-Steady c ctrl (say (Said.prompt ∷ [])) _ (say-Steady c ctrl (Said.prompt ∷ []))
        (λ u.
          then-Steady c ctrl read_line _ (read_line-Steady c ctrl)
            (λ cmd. run_verb-Steady fresh cmd (verb_of cmd) sound))
        s h
