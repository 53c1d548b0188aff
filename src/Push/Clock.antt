-- ===== src/Push/Clock.antt =====
-- The times of a room: after a batch whose messages are in the order of their times, sender by
-- sender, no message of it is newer than what the room has noted.
use onionmsg.Base.{
  ℕ, ◌≤◌, ◌≡◌, false, if◌then◌else◌, List, [], ◌∷◌, All, Bytes, same_iff, arith, some, Option-cases,
  inl, inr,
}
use onionmsg.Message.{Message, meta_of}
use onionmsg.Peer.{is_newer}
use onionmsg.SyncMap.{SyncMap, lookup, insert, copy_sync_map}
use onionmsg.SyncMap.Laws.{lookup-insert, lookup-copy_sync_map}
use onionmsg.Push.{is_fresh}
use onionmsg.Push.Batch.{times_after}

abbrev pub sender : Message → Bytes
sender m = (meta_of m).sender

abbrev pub time : Message → ℕ
time m = (meta_of m).time

-- A time that the map has already noted for a sender.
abbrev pub Seen : SyncMap → Bytes → ℕ → Type 0
Seen times k t = is_newer (lookup k times) t ≡ false

-- The times name a time of the sender that is not before this one.
abbrev pub Noted : SyncMap → Bytes → ℕ → Type 0
Noted times k t = (last : ℕ) × (lookup k times ≡ some last) × (t ≤ last)

pub Seen-Noted : (times : SyncMap) (k : Bytes) (t : ℕ) → Seen times k t → Noted times k t
unfolding is_newer
Seen-Noted times k t seen = elim (Option-cases (lookup k times)) [
  | inl e ↦ absurd (ground arith)
  | inr (last, e) ↦ (last, e, ground arith)
]

pub Noted-Seen : (times : SyncMap) (k : Bytes) (t : ℕ) → Noted times k t → Seen times k t
unfolding is_newer
Noted-Seen times k t (last, e, h) = ground arith

-- Messages of one sender stand in the order of their times.
abbrev pub Ascending : List Message → Type 0
Ascending [] = Unit {0}
Ascending (m ∷ ms) = All (λ n. sender m ≡ sender n → time m ≤ time n) ms × Ascending ms

abbrev pub Extends : SyncMap → SyncMap → Type 0
Extends times new_times = (k : Bytes) (t : ℕ) → Seen times k t → Seen new_times k t

pub copy-Extends : (times : SyncMap) → Extends times (copy_sync_map times)
copy-Extends times k t h = rw (lookup-copy_sync_map k times) h

abbrev note : SyncMap → Message → SyncMap → SyncMap
note times m new_times =
    if is_fresh times m then insert (sender m) (time m) new_times else new_times

note-Extends :
    (times : SyncMap) (m : Message) (new_times : SyncMap)
    → Extends times new_times
    → Extends times (note times m new_times)
unfolding is_newer
note-Extends times m new_times ext k t h =
    ground (arith, ext k t, lookup-insert (sender m) k (time m) new_times, same_iff (sender m) k)

note-Seen :
    (times : SyncMap) (m : Message) (new_times : SyncMap)
    → Extends times new_times
    → Seen (note times m new_times) (sender m) (time m)
unfolding is_newer
note-Seen times m new_times ext = ground (
  arith,
  ext (sender m) (time m),
  lookup-insert (sender m) (sender m) (time m) new_times,
  same_iff (sender m) (sender m),
)

-- What was noted stays noted if no later message of the sender is older.
note-stays :
    (times : SyncMap) (m : Message) (new_times : SyncMap) (k : Bytes) (t : ℕ)
    → (k ≡ sender m → t ≤ time m)
    → Seen new_times k t
    → Seen (note times m new_times) k t
unfolding is_newer
note-stays times m new_times k t later h =
    ground (arith, later, lookup-insert (sender m) k (time m) new_times, same_iff (sender m) k)

times_after-stays :
    (times : SyncMap) (ms : List Message) (new_times : SyncMap) (k : Bytes) (t : ℕ)
    → All (λ n. k ≡ sender n → t ≤ time n) ms
    → Seen new_times k t
    → Seen (times_after times ms new_times) k t
unfolding times_after
times_after-stays times [] new_times k t later h = h
times_after-stays times (m ∷ ms) new_times k t later h =
    times_after-stays times ms (note times m new_times) k t later.1
      (note-stays times m new_times k t later.0 h)

pub times_after-Extends :
    (times : SyncMap) (ms : List Message) (new_times : SyncMap)
    → Extends times new_times
    → Extends times (times_after times ms new_times)
unfolding times_after
times_after-Extends times [] new_times ext = ext
times_after-Extends times (m ∷ ms) new_times ext =
    times_after-Extends times ms (note times m new_times) (note-Extends times m new_times ext)

pub times_after-Seen :
    (times : SyncMap) (ms : List Message) (new_times : SyncMap)
    → Extends times new_times
    → Ascending ms
    → All (λ m. Seen (times_after times ms new_times) (sender m) (time m)) ms
unfolding times_after
times_after-Seen times [] new_times ext asc = tt
times_after-Seen times (m ∷ ms) new_times ext asc = (
  times_after-stays times ms (note times m new_times) (sender m) (time m) asc.0
      (note-Seen times m new_times ext),
  times_after-Seen times ms (note times m new_times) (note-Extends times m new_times ext) asc.1,
)
