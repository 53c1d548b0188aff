-- ===== src/Command/Cases.antt =====
-- How the callbacks can end in a room that is ready: a rule for each, on which all that is proved
-- of commands rests.
use onionmsg.Base.{
  ◌≡◌, ◌≢◌, refl, true, false, inl, inr, [], ◌∷◌, Bytes, All, same, not_a_command, index, Error,
  Outcome, ok, err, panic, Bool-cases, not_registered,
}
use onionmsg.Exec.{Exec, resume, try_modify, write_or}
use onionmsg.Identity.{Identity, remote, new_identity}
use onionmsg.Message.{Message, meta_of, is_command}
use onionmsg.Peer.{new_messaging_peer}
use onionmsg.Room.{Room}
use onionmsg.Command.{
  invite, name_room, nick, promote, remove_peer, Registry, room_commands, run_callback,
  find_callback, handle_command, parse_command, get_sender, write_ref, promoted, set_nick, is_known,
  start_and_append, removed, MetaRef, invite_callback, name_room_callback, nick_callback,
  promote_callback, remove_peer_callback,
}
use onionmsg.Command.NoPanic.{
  IsReady, parse_command-length, parse_command-ne-panic, index-ne-panic, new_identity-ne-panic,
  get_sender-ne-panic, write_sender-ne-panic, promoted-ne-panic, start_and_append-ne-panic,
  is_command-ne-panic, removed-ne-panic,
}

abbrev pub Result : Type 0
Result = Outcome (Unit {0}) × Room

-- The rule for one step of a `do` block that reads the room and may fail.
step_cases :
    {A : Type 0} (P : Result → Type 0) (o : Outcome A) (f : A → Exec Room (Unit {0})) (r : Room)
    → ((a : A) → o ≡ ok a → P (f a r))
    → ((e : Error) → P (err e, r))
    → o ≢ panic
    → P (resume o f r)
step_cases P (ok a) f r good bad safe = good a refl
step_cases P (err e) f r good bad safe = bad e
step_cases P panic f r good bad safe = absurd (safe refl)

write_cases :
    (P : Result → Type 0) (f : Room → Outcome Room) (r : Room)
    → ((t : Room) → f r ≡ ok t → P (ok tt, t))
    → ((e : Error) → P (err e, r))
    → f r ≢ panic
    → P (try_modify f r)
write_cases P f r good bad safe = go (f r) good safe
  where
    go : (o : Outcome Room) → ((t : Room) → o ≡ ok t → P (ok tt, t)) → o ≢ panic → P (write_or o r)
    go (ok t) good safe = good t refl
    go (err e) good safe = bad e
    go panic good safe = absurd (safe refl)

-- The end of each callback in a ready room: an error and the room as it was, or the one change that
-- the command is for.
module _ (P : Result → Type 0) (r : Room) (ready : IsReady r) (m : Message) (command : Bytes)
    (fails : (e : Error) → P (err e, r)) where
  pub invite_cases :
      ((fp : Bytes) (i : Identity) (t : Room)
        → is_known fp r ≡ false
        → new_identity remote [] fp ≡ ok i
        → start_and_append (new_messaging_peer i) r ≡ ok t
        → P (ok tt, t))
      → P (invite_callback command m r)
  unfolding invite_callback
  invite_cases good =
      step_cases P (parse_command m command invite 2) _ r
        (λ args h.
          step_cases P (index args 1) _ r
            (λ fp _. elim (Bool-cases (is_known fp r)) [
              | inl known ↦ rw known (fails _)
              | inr fresh ↦ rw fresh (
                  step_cases P (new_identity remote [] fp) _ r
                    (λ i made.
                      write_cases P (start_and_append (new_messaging_peer i)) r
                        (λ t added. good fp i t fresh made added) fails
                        (start_and_append-ne-panic r ready (new_messaging_peer i)))
                    fails (new_identity-ne-panic fp))
            ])
            fails (index-ne-panic args (parse_command-length m command invite h)))
        fails (parse_command-ne-panic m command invite)

  pub name_room_cases :
      ((name : Bytes) → P (ok tt, record r { name = name })) → P (name_room_callback command m r)
  unfolding name_room_callback
  name_room_cases good =
      step_cases P (parse_command m command name_room 2) _ r
        (λ args h.
          step_cases P (index args 1) _ r (λ name _. good name) fails
            (index-ne-panic args (parse_command-length m command name_room h)))
        fails (parse_command-ne-panic m command name_room)

  pub nick_cases :
      ((name : Bytes) (i : Identity) (ref : MetaRef) (t : Room)
        → get_sender (meta_of m).sender false r ≡ ok (i, ref)
        → write_ref (set_nick name) ref r ≡ ok t
        → P (ok tt, t))
      → P (nick_callback command m r)
  unfolding nick_callback
  nick_cases good =
      step_cases P (parse_command m command nick 2) _ r
        (λ args h.
          step_cases P (get_sender (meta_of m).sender false r) _ r
            (λ (i, ref) found.
              step_cases P (index args 1) _ r
                (λ name _.
                  write_cases P (write_ref (set_nick name) ref) r
                    (λ t written. good name i ref t found written) fails
                    (write_sender-ne-panic r ready _ _ false i ref found))
                fails (index-ne-panic args (parse_command-length m command nick h)))
            fails (get_sender-ne-panic r ready _ false))
        fails (parse_command-ne-panic m command nick)

  pub promote_cases :
      ((fp : Bytes) (i : Identity) (ref : MetaRef) (t : Room)
        → get_sender (meta_of m).sender true r ≡ ok (i, ref)
        → promoted fp r ≡ ok t
        → P (ok tt, t))
      → P (promote_callback command m r)
  unfolding promote_callback
  promote_cases good =
      step_cases P (parse_command m command promote 2) _ r
        (λ args h.
          step_cases P (get_sender (meta_of m).sender true r) _ r
            (λ (i, ref) found.
              step_cases P (index args 1) _ r
                (λ fp _.
                  write_cases P (promoted fp) r (λ t written. good fp i ref t found written) fails
                    (promoted-ne-panic r ready fp))
                fails (index-ne-panic args (parse_command-length m command promote h)))
            fails (get_sender-ne-panic r ready _ true))
        fails (parse_command-ne-panic m command promote)

  pub remove_peer_cases :
      ((fp : Bytes) (i : Identity) (ref : MetaRef) (t : Room)
        → get_sender (meta_of m).sender true r ≡ ok (i, ref)
        → removed fp r ≡ ok t
        → P (ok tt, t))
      → P (remove_peer_callback command m r)
  unfolding remove_peer_callback
  remove_peer_cases good =
      step_cases P (parse_command m command remove_peer 2) _ r
        (λ args h.
          step_cases P (get_sender (meta_of m).sender true r) _ r
            (λ (i, ref) found.
              step_cases P (index args 1) _ r
                (λ fp _.
                  write_cases P (removed fp) r (λ t gone. good fp i ref t found gone) fails
                    (removed-ne-panic r fp))
                fails (index-ne-panic args (parse_command-length m command remove_peer h)))
            fails (get_sender-ne-panic r ready _ true))
        fails (parse_command-ne-panic m command remove_peer)

-- A command runs the callback that is registered for its name.
module _ (P : Result → Type 0) (r : Room) (m : Message) (fails : (e : Error) → P (err e, r)) where
  run_cases :
      (reg : Registry) (command : Bytes)
      → All (λ entry. P (entry.1 command m r)) reg
      → P (run_callback (find_callback command reg) command m r)
  unfolding run_callback find_callback
  run_cases [] command h = fails (not_registered command)
  run_cases ((name, cb) ∷ reg) command h = elim (Bool-cases (same name command)) [
    | inl hit ↦ rw hit h.0
    | inr miss ↦ rw miss (run_cases reg command h.1)
  ]

  handle_cases :
      (reg : Registry)
      → ((command : Bytes) → All (λ entry. P (entry.1 command m r)) reg)
      → P (handle_command reg m r)
  unfolding handle_command
  handle_cases reg h =
      step_cases P (is_command m) _ r
        (λ (has_command, command) _. elim (Bool-cases has_command) [
          | inl e ↦ rw e (run_cases reg command (h command))
          | inr e ↦ rw e (fails not_a_command)
        ])
        fails (is_command-ne-panic m)

  -- The five commands of a room.
  pub room_cases :
      ((command : Bytes) → P (invite_callback command m r))
      → ((command : Bytes) → P (name_room_callback command m r))
      → ((command : Bytes) → P (nick_callback command m r))
      → ((command : Bytes) → P (promote_callback command m r))
      → ((command : Bytes) → P (remove_peer_callback command m r))
      → P (handle_command room_commands m r)
  unfolding room_commands
  room_cases on_invite on_name on_nick on_promote on_remove =
      handle_cases room_commands
        λ k. (on_invite k, (on_name k, (on_nick k, (on_promote k, (on_remove k, tt)))))
