-- ===== src/Push/Interleaving.antt =====
-- Two batches that arrive at once. `PushMessages` copies the room's times before it takes the mutex,
-- so both calls may have copied before either has pushed.
use onionmsg.Base.{◌≡◌, ◌≢◌, ◌∙◌, refl, List, [], ◌∷◌, ◌++◌, keep, All, Bytes, same_iff, arith}
use onionmsg.Message.{Message}
use onionmsg.SyncMap.{SyncMap, lookup, copy_sync_map}
use onionmsg.SyncMap.Laws.{lookup-insert, lookup-copy_sync_map}
use onionmsg.Room.{Room}
use onionmsg.Command.NoPanic.{IsReady}
use onionmsg.Push.{is_fresh, push_locked}
use onionmsg.Push.Batch.{times_after, push_locked-lem}
use onionmsg.Push.Clock.{sender, time}
use onionmsg.Push.Delivery.{Lacking, keep-Lacking}

-- Both calls copy; then the first pushes, then the second.
unfoldable pub push_both : List Message → List Message → Room → Room
push_both first second r =
    let copy1 = copy_sync_map r.sync_state in
    let copy2 = copy_sync_map r.sync_state in
    (push_locked copy2 second (push_locked copy1 first r).1).1

times_after-other :
    (times : SyncMap) (k : Bytes) (ms : List Message) (new_times : SyncMap)
    → All (λ m. sender m ≢ k) ms
    → lookup k (times_after times ms new_times) ≡ lookup k new_times
unfolding times_after
times_after-other times k [] new_times h = refl
times_after-other times k (m ∷ ms) new_times h =
    times_after-other times k ms _ h.1
    ∙ ground (arith, lookup-insert (sender m) k (time m) new_times, same_iff (sender m) k)

-- Two batches that arrive at once in a ready room. Of the first, the messages that the room's times
-- have not noted are appended, and behind them, of the second, those that the times after the first
-- have not noted. But for every sender of whom the second batch has no message, the time noted
-- afterwards is the one from before both, whatever the first batch brought.
pub push_both-loses :
    (first second : List Message) (r : Room) (k : Bytes)
    → IsReady r
    → All (λ m. sender m ≢ k) second
    → let s = (push_locked (copy_sync_map r.sync_state) first r).1 in
      let t = push_both first second r in
      (lookup k t.sync_state ≡ lookup k r.sync_state)
      × ((news1 : List Message) × (news2 : List Message) × Lacking r.sync_state first news1
          × Lacking s.sync_state second news2
          × (t.messages ≡ (r.messages ++ news1) ++ news2))
unfolding push_both
push_both-loses first second r k ready others =
    let copy = copy_sync_map r.sync_state in
    let s : Room = (push_locked copy first r).1 in
    let (_, messages1, times1, _, ready1) = push_locked-lem copy first r ready in
    let (_, messages2, times2, _, _) = push_locked-lem copy second s ready1 in
    (
      rw times2 (
          times_after-other s.sync_state k second copy others
          ∙ lookup-copy_sync_map k r.sync_state),
      (
        keep (is_fresh r.sync_state) first,
        keep (is_fresh s.sync_state) second,
        keep-Lacking r.sync_state first,
        keep-Lacking s.sync_state second,
        rw (messages2, messages1),
      ),
    )
