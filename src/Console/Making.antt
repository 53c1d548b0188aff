-- ===== src/Console/Making.antt =====
-- The commands of the prompt that make and remove rooms and contact identities, and its exit, keep the
-- daemon in step.
use onionmsg.Base.{
  length, ◌≡◌, refl, Bool-cases, List, [], ◌∷◌, Option, Bytes, inl, inr, ok, err, panic, Outcome,
}
use onionmsg.Exec.{Exec, resume, done, lift}
use onionmsg.Ed25519.{Scheme}
use onionmsg.Identity.{Identity, contact, new_identity}
use onionmsg.Identity.Keys.{new_identity_keys}
use onionmsg.Message.{Marshal}
use onionmsg.Room.{Room}
use onionmsg.Tor.{Controller}
use onionmsg.Daemon.State.{Daemon}
use onionmsg.Daemon.Services.{Ports, register_room, register_cont_id, deregister_cont_id}
use onionmsg.Daemon.Rooms.{new_room}
use onionmsg.Daemon.InStep.{Laws, InStep, RoomOk}
use onionmsg.Daemon.InStep.Services.{Stays}
use onionmsg.Daemon.InStep.Registered.{
  IsOwn-of, register_room-Stays, register_cont_id-Stays, deregister_cont_id-Stays,
}
use onionmsg.Daemon.InStep.Made.{new_room-RoomOk}
use onionmsg.Lifecycle.{Storage, exit_daemon}
use onionmsg.Console.{Said, Fresh, say, read_line, told, or_tell, on_daemon, read_contacts}
use onionmsg.Console.Commands.{
  exit_now, add_contact, remove_contact, made_room, with_contacts, make_room,
}
use onionmsg.Console.Steady.{
  IsSound, Steady, then-Steady, or_tell-Steady, say-Steady, read_line-Steady, read_contacts-Steady,
}

module _ (c : Scheme) (ctrl : Controller) (g : Storage) (ports : Ports) (j : Marshal)
    (parse : Bytes → Option Bytes) (show : Bytes → Bytes) (laws : Laws c ctrl) where
  on_daemon-Steady : {A : Type 0} (m : Exec Daemon A) → Stays c ctrl m → Steady c ctrl (on_daemon m)
  on_daemon-Steady m stays s h = stays s.process.daemon h

  pub exit_now-Steady : Steady c ctrl (exit_now g ctrl ports c j parse show)
  unfolding exit_now exit_daemon
  exit_now-Steady s h = elim (Bool-cases s.process.load_fuse) [
    | inl fused ↦ simp fused h
    | inr unfused ↦ simp unfused h
  ]

  pub add_contact-Steady :
      (fresh : Fresh)
      → IsSound c fresh
      → Steady c ctrl (add_contact g ctrl ports c j parse show fresh)
  unfolding add_contact
  add_contact-Steady fresh sound s h = go (new_identity contact fresh.key []) refl
    where
      go :
          (o : Outcome Identity)
          → new_identity contact fresh.key [] ≡ o
          → InStep c ctrl
              (resume o
                (λ i. or_tell Said.failure (on_daemon (register_cont_id ctrl ports i)) (λ u. done))
                s).1.process.daemon
      go (ok i) made =
          let (priv, pub_key) =
            new_identity_keys c fresh.key sound.generated contact [] (λ p. cc) made in
          or_tell-Steady c ctrl Said.failure (on_daemon (register_cont_id ctrl ports i)) (λ u. done)
            (on_daemon-Steady (register_cont_id ctrl ports i) (
              register_cont_id-Stays c ctrl laws ports i
                (IsOwn-of c fresh.key i sound.generated priv pub_key)))
            (λ u s h. h) s h
      go (err e) made = h
      go panic made = h

  pub remove_contact-Steady : Steady c ctrl (remove_contact g ctrl ports c j parse show)
  unfolding remove_contact
  remove_contact-Steady =
      then-Steady c ctrl (say (Said.enter_fingerprint ∷ [])) _
        (say-Steady c ctrl (Said.enter_fingerprint ∷ []))
        (λ u. then-Steady c ctrl read_line _ (read_line-Steady c ctrl) (λ fp.
          or_tell-Steady c ctrl Said.failure (on_daemon (deregister_cont_id ctrl ports fp))
            (λ u. done)
            (on_daemon-Steady (deregister_cont_id ctrl ports fp)
              (deregister_cont_id-Stays c ctrl laws ports fp))
            (λ u s h. h)))

  made_room-Steady :
      (r : Room) → RoomOk c r → Steady c ctrl (made_room g ctrl ports c j parse show r)
  unfolding made_room
  made_room-Steady r fit =
      or_tell-Steady c ctrl (λ e. Said.empty_line) (on_daemon (register_room ctrl ports r)) _
        (on_daemon-Steady (register_room ctrl ports r)
          (register_room-Stays c ctrl laws ports r fit))
        (λ u. say-Steady c ctrl _)

  with_contacts-Steady :
      (fresh : Fresh) (is : List Identity)
      → IsSound c fresh
      → Steady c ctrl (with_contacts g ctrl ports c j parse show fresh is)
  unfolding with_contacts
  with_contacts-Steady fresh [] sound = say-Steady c ctrl (Said.no_peers ∷ [])
  with_contacts-Steady fresh (i ∷ is) sound =
      then-Steady c ctrl (say (Said.trying (length (i ∷ is)) ∷ [])) _
        (say-Steady c ctrl (Said.trying (length (i ∷ is)) ∷ [])) (λ u. made)
    where
      o : Outcome Room
      o = new_room c j fresh.make fresh.times fresh.key fresh.id (i ∷ is)

      made : Steady c ctrl (or_tell Said.failure (lift o) (made_room g ctrl ports c j parse show))
      made s h = go o refl
        where
          go :
              (r : Outcome Room)
              → o ≡ r
              → InStep c ctrl
                  (told Said.failure r (made_room g ctrl ports c j parse show) s).1.process.daemon
          go (ok r) e =
              made_room-Steady r
                (new_room-RoomOk c j fresh.make fresh.times sound.makes fresh.key fresh.id (i ∷ is)
                  r sound.generated e)
                s h
          go (err f) e = say-Steady c ctrl (Said.failure f ∷ []) s h
          go panic e = h

  pub make_room-Steady :
      (fresh : Fresh)
      → IsSound c fresh
      → Steady c ctrl (make_room g ctrl ports c j parse show fresh)
  unfolding make_room
  make_room-Steady fresh sound =
      then-Steady c ctrl (say (Said.enter_contacts ∷ [])) _
        (say-Steady c ctrl (Said.enter_contacts ∷ []))
        (λ u s h.
          then-Steady c ctrl (read_contacts s.lines []) _ (read_contacts-Steady c ctrl s.lines [])
            (λ is. with_contacts-Steady fresh is sound) s h)
