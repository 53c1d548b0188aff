-- ===== src/Push/Delivery.antt =====
-- Two rooms: what `findMessagesToSync` picks on one side and `PushMessages` does with it on the other.
use onionmsg.Base.{
  ◌≡◌, ◌∙◌, ap, ◌≤◌, Bool-cases, inl, inr, Bool, List, [], ◌∷◌, ◌++◌, keep, keep-keep, All-keep,
  All-of-keep, keep-none, ok, All, arith,
}
use onionmsg.Message.{Message}
use onionmsg.Peer.{find_messages_to_sync}
use onionmsg.SyncMap.{SyncMap, copy_sync_map}
use onionmsg.Room.{Room}
use onionmsg.Command.NoPanic.{IsReady}
use onionmsg.Push.{is_fresh, push_messages}
use onionmsg.Push.Batch.{times_after, push_locked-lem}
use onionmsg.Push.Clock.{
  sender, time, Seen, Noted, Seen-Noted, Noted-Seen, Ascending, copy-Extends, times_after-Extends,
  times_after-Seen,
}

pub keep-Ascending : (p : Message → Bool) (ms : List Message) → Ascending ms → Ascending (keep p ms)
keep-Ascending p [] h = tt
keep-Ascending p (m ∷ ms) h = elim (Bool-cases (p m)) [
  | inl e ↦
      rw e (All-keep (λ n. sender m ≡ sender n → time m ≤ time n) p ms h.0, keep-Ascending p ms h.1)
  | inr e ↦ rw e (keep-Ascending p ms h.1)
]

nothing_left :
    (times : SyncMap) (ms : List Message) (new_times : SyncMap)
    → Ascending ms
    → new_times ≡ times_after times (keep (is_fresh times) ms) (copy_sync_map times)
    → keep (is_fresh new_times) ms ≡ []
nothing_left times ms new_times asc e = keep-none (is_fresh new_times) ms (
    rw e (
      All-of-keep
        (λ m.
          Seen (times_after times (keep (is_fresh times) ms) (copy_sync_map times)) (sender m)
            (time m))
        (is_fresh times) ms
        (times_after-Seen times (keep (is_fresh times) ms) (copy_sync_map times)
          (copy-Extends times) (keep-Ascending (is_fresh times) ms asc))
        (λ m old.
          times_after-Extends times (keep (is_fresh times) ms) (copy_sync_map times)
            (copy-Extends times) (sender m) (time m) old)))

-- Of some messages, those that the times have not noted, in their order.
pub data Lacking (times : SyncMap) : List Message → List Message → Type 0 where
  none_lack : Lacking times [] []
  is_noted :
      {m : Message} {ms lack : List Message}
      → Noted times (sender m) (time m)
      → Lacking times ms lack
      → Lacking times (m ∷ ms) lack
  is_lacking :
      {m : Message} {ms lack : List Message}
      → ¬ (Noted times (sender m) (time m))
      → Lacking times ms lack
      → Lacking times (m ∷ ms) (m ∷ lack)

pub keep-Lacking :
    (times : SyncMap) (ms : List Message) → Lacking times ms (keep (is_fresh times) ms)
keep-Lacking times [] = none_lack
keep-Lacking times (m ∷ ms) = elim (Bool-cases (is_fresh times m)) [
  | inl fresh ↦ rw fresh (
      is_lacking
        (λ noted. absurd (let h = Noted-Seen times (sender m) (time m) noted in ground arith))
        (keep-Lacking times ms))
  | inr seen ↦
      rw seen (is_noted (Seen-Noted times (sender m) (time m) seen) (keep-Lacking times ms))
]

All-Noted :
    (times : SyncMap) (ms : List Message)
    → keep (is_fresh times) ms ≡ []
    → All (λ m. Noted times (sender m) (time m)) ms
All-Noted times [] e = tt
All-Noted times (m ∷ ms) e = elim (Bool-cases (is_fresh times m)) [
  | inl fresh ↦ absurd (let h = rw fresh at e in ground arith)
  | inr seen ↦ (Seen-Noted times (sender m) (time m) seen, All-Noted times ms (rw seen at e))
]

-- One exchange brings a peer up to date. If the messages of a room stand in the order of their
-- times, sender by sender, and the remote room is ready, then what the room picks for the remote
-- room's times are, in their order, exactly the messages for whose sender the remote room has noted no
-- time or an earlier one. They are appended there whole and in order, without a panic. Afterwards the
-- remote room has noted, for every message of the room, a time of its sender that is not earlier, and
-- nothing is left to send.
pub push_messages-delivers :
    (a b : Room)
    → Ascending a.messages
    → IsReady b
    → let sent = find_messages_to_sync a.messages b.sync_state in
      let (o, t) = push_messages sent b in
      Lacking b.sync_state a.messages sent
      × (o ≡ ok tt)
      × (t.messages ≡ b.messages ++ sent)
      × All (λ m. Noted t.sync_state (sender m) (time m)) a.messages
      × (find_messages_to_sync a.messages t.sync_state ≡ [])
      × IsReady t
unfolding push_messages find_messages_to_sync
push_messages-delivers a b asc ready =
    let sent : List Message = keep (is_fresh b.sync_state) a.messages in
    let (e, messages, times, _, ready') =
      push_locked-lem (copy_sync_map b.sync_state) sent b ready in
    let nothing = nothing_left b.sync_state a.messages _ asc times in
    (
      keep-Lacking b.sync_state a.messages,
      e,
      messages ∙ ap (◌++◌ b.messages) (keep-keep (is_fresh b.sync_state) a.messages),
      All-Noted _ a.messages nothing,
      nothing,
      ready',
    )
