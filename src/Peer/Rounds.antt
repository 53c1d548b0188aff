-- ===== src/Peer/Rounds.antt =====
-- The rounds of the loop in `RunMessageQueue`. What `syncMsgs` returns, if it is called, is an
-- input.
use onionmsg.Base.{
  ◌≡◌, refl, ap, ◌∙◌, Bool, true, false, if◌then◌else◌, not, Outcome, ok, err, panic, Error,
}
use onionmsg.SyncMap.{SyncMap, IsMap, copy_sync_map, sync_maps_equal}
use onionmsg.SyncMap.Laws.{sync_maps_equal_iff, lookup-copy_sync_map}
use onionmsg.Peer.{Peer, idle, running, stopped, sleeping}

-- `!SyncMapsEqual(mp.Room.SyncState, mp.LastSyncState)`
unfoldable pub needs_sync : SyncMap → Peer → Bool
needs_sync times p = not (sync_maps_equal times p.last_sync_state)

abbrev pub pause : Peer → Peer
pause p = record p { wait = sleeping }

-- One round, up to the pause. The room's times are read twice: `before` the sync, and `current`
-- after it. A queue whose context is done does nothing more; that is looked at only here, at the
-- start of a round, so that the timeout, a skip and the end of the context all end the pause alike.
unfoldable pub queue_round : Outcome (Unit {0}) → SyncMap → SyncMap → Peer → Outcome Peer
unfolding needs_sync
queue_round synced before current p = elim p.queue [
  | running ↦
      if needs_sync before p
      then elim synced [
        | ok u ↦ ok (pause (record p { last_sync_state = copy_sync_map current }))
        | err e ↦ ok (pause p)
        | panic ↦ panic
      ]
      else ok (pause p)
  | idle ↦ ok p
  | stopped ↦ ok p
]

copied-equal : (times : SyncMap) → IsMap times → sync_maps_equal times (copy_sync_map times) ≡ true
copied-equal times distinct =
    (sync_maps_equal_iff times (copy_sync_map times) distinct).1
      (λ k t e. lookup-copy_sync_map k times ∙ e)

-- A round of a running queue in which a sync is due, where the times after the sync name each
-- sender once. If the sync works, the queue goes on to the pause and no sync is due for the times
-- that the room has by then, be they later than those for which the messages were picked. If the
-- sync fails, the queue goes on to the pause, and for any times of the room a sync is due exactly
-- if it was. A sync that panics ends the queue.
pub queue_round-settles :
    (before current times : SyncMap) (p : Peer) (e : Error)
    → IsMap current
    → p.queue ≡ running
    → needs_sync before p ≡ true
    → ((q : Peer) × (queue_round (ok tt) before current p ≡ ok q)
        × (q.queue ≡ running)
        × (q.wait ≡ sleeping)
        × (needs_sync current q ≡ false))
      × ((q : Peer) × (queue_round (err e) before current p ≡ ok q)
          × (q.queue ≡ running)
          × (q.wait ≡ sleeping)
          × (needs_sync times q ≡ needs_sync times p))
      × (queue_round panic before current p ≡ panic)
unfolding queue_round needs_sync
queue_round-settles before current times p e distinct run due = (
  (
    pause (record p { last_sync_state = copy_sync_map current }),
    rw (run, due) refl,
    run,
    refl,
    ap not (copied-equal current distinct),
  ),
  (pause p, rw (run, due) refl, run, refl, refl),
  rw (run, due) refl,
)
