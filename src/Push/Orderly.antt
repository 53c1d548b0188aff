-- ===== src/Push/Orderly.antt =====
-- The invariant of a room's log: its messages stand in the order of their times, sender by sender,
-- and its times have noted all of them.
use onionmsg.Base.{
  ◌≤◌, ◌≡◌, true, List, [], ◌∷◌, ◌++◌, keep, All, All-append, All-keep, All-map, Bool-cases, inl,
  inr, arith,
}
use onionmsg.Message.{Message}
use onionmsg.Peer.{is_newer}
use onionmsg.SyncMap.{SyncMap, copy_sync_map}
use onionmsg.Room.{Room}
use onionmsg.Command.NoPanic.{IsReady}
use onionmsg.Push.{is_fresh, push_messages}
use onionmsg.Push.Batch.{times_after, push_locked-lem}
use onionmsg.Push.Clock.{
  sender, time, Seen, Ascending, copy-Extends, times_after-Extends, times_after-Seen,
}
use onionmsg.Push.Delivery.{keep-Ascending}

pub record IsOrderly (r : Room) : Type 0 where
  pub ascending : Ascending r.messages
  pub noted : All (λ m. Seen r.sync_state (sender m) (time m)) r.messages

-- A fresh message is later than every message of its sender that was noted.
fresh_later :
    (times : SyncMap) (m n : Message)
    → Seen times (sender m) (time m)
    → is_fresh times n ≡ true
    → sender m ≡ sender n
    → time m ≤ time n
unfolding is_newer
fresh_later times m n seen fresh e = let seen' = rw e at seen in ground arith

All-later :
    (times : SyncMap) (m : Message) (ns : List Message)
    → Seen times (sender m) (time m)
    → All (λ n. sender m ≡ sender n → time m ≤ time n) (keep (is_fresh times) ns)
All-later times m [] seen = tt
All-later times m (n ∷ ns) seen = elim (Bool-cases (is_fresh times n)) [
  | inl e ↦ rw e (fresh_later times m n seen e, All-later times m ns seen)
  | inr e ↦ rw e (All-later times m ns seen)
]

append-Ascending :
    (times : SyncMap) (ms ns : List Message)
    → Ascending ms
    → All (λ m. Seen times (sender m) (time m)) ms
    → Ascending ns
    → Ascending (ms ++ keep (is_fresh times) ns)
append-Ascending times [] ns asc seen h = keep-Ascending (is_fresh times) ns h
append-Ascending times (m ∷ ms) ns asc seen h = (
  All-append (λ n. sender m ≡ sender n → time m ≤ time n) ms (keep (is_fresh times) ns) asc.0
      (All-later times m ns seen.0),
  append-Ascending times ms ns asc.1 seen.1 h,
)

-- Every batch whose messages stand in the order of their times, sender by sender, keeps a ready
-- room orderly: the room's log stays in that order and no message of it is newer than the time that
-- is noted for its sender.
pub push_messages-IsOrderly :
    (ms : List Message) (r : Room)
    → IsReady r
    → Ascending ms
    → IsOrderly r
    → IsOrderly (push_messages ms r).1
unfolding push_messages
push_messages-IsOrderly ms r ready asc orderly =
    let (_, messages, times, _, _) = push_locked-lem (copy_sync_map r.sync_state) ms r ready in
    record {
      ascending =
          rw messages
            (append-Ascending r.sync_state r.messages ms orderly.ascending orderly.noted asc);
      noted =
          rw (messages, times)
            (All-append
              (λ m.
                Seen (times_after r.sync_state ms (copy_sync_map r.sync_state)) (sender m) (time m))
              r.messages (keep (is_fresh r.sync_state) ms)
              (All-map _ _ r.messages
                (λ m seen.
                  times_after-Extends r.sync_state ms (copy_sync_map r.sync_state)
                    (copy-Extends r.sync_state) (sender m) (time m) seen)
                orderly.noted)
              (All-keep _ (is_fresh r.sync_state) ms (
                times_after-Seen r.sync_state ms (copy_sync_map r.sync_state)
                  (copy-Extends r.sync_state) asc)));
    }
