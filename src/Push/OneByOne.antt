-- ===== src/Push/OneByOne.antt =====
-- A batch of `PushMessages` of internal/types/room.go against its messages pushed one by one.
use onionmsg.Base.{
  ℕ, ◌<◌, ◌≡◌, refl, ap, sym, ◌∙◌, Bool, Bool-cases, inl, inr, if◌then◌else◌, List, [], ◌∷◌, ◌++◌,
  keep, All, Bytes, some, ok, same, same_iff, append_assoc, append-nil, arith,
}
use onionmsg.Exec.{Exec, done, ◌>>◌}
use onionmsg.Message.{Message}
use onionmsg.Peer.{is_newer}
use onionmsg.SyncMap.{SyncMap, lookup, insert, copy_sync_map}
use onionmsg.SyncMap.Laws.{lookup-insert, lookup-copy_sync_map}
use onionmsg.Room.{Room}
use onionmsg.Command.NoPanic.{IsReady}
use onionmsg.Push.{is_fresh, push_messages}
use onionmsg.Push.Batch.{times_after, push_locked-lem}
use onionmsg.Push.Clock.{sender, time}

-- The reference: one call for each message.
unfoldable pub push_each : List Message → Exec Room (Unit {0})
push_each [] = done
push_each (m ∷ ms) = do push_messages (m ∷ []); push_each ms

-- Messages of one sender have times that grow.
abbrev pub Growing : List Message → Type 0
Growing [] = Unit {0}
Growing (m ∷ ms) = All (λ n. sender m ≡ sender n → time m < time n) ms × Growing ms

abbrev pub Agree : SyncMap → SyncMap → Type 0
Agree a b = (k : Bytes) → lookup k a ≡ lookup k b

note : SyncMap → Message → SyncMap → SyncMap
note times m new_times =
    if is_fresh times m then insert (sender m) (time m) new_times else new_times

-- A later message is as fresh after a message was noted as before.
note-is_fresh :
    (times : SyncMap) (m n : Message)
    → (sender m ≡ sender n → time m < time n)
    → is_fresh (note times m (copy_sync_map times)) n ≡ is_fresh times n
unfolding note is_newer
note-is_fresh times m n later = ground (
  arith,
  later,
  lookup-insert (sender m) (sender n) (time m) (copy_sync_map times),
  lookup-copy_sync_map (sender n) times,
  same_iff (sender m) (sender n),
)

fresh-All :
    (times : SyncMap) (m : Message) (ms : List Message)
    → All (λ n. sender m ≡ sender n → time m < time n) ms
    → All (λ n. is_fresh (note times m (copy_sync_map times)) n ≡ is_fresh times n) ms
fresh-All times m [] h = tt
fresh-All times m (n ∷ ms) h = (note-is_fresh times m n h.0, fresh-All times m ms h.1)

keep-same :
    (a b : SyncMap) (ms : List Message)
    → All (λ n. is_fresh a n ≡ is_fresh b n) ms
    → keep (is_fresh a) ms ≡ keep (is_fresh b) ms
keep-same a b [] h = refl
keep-same a b (m ∷ ms) h =
    rw h.0 (ap (λ rest. if is_fresh b m then m ∷ rest else rest) (keep-same a b ms h.1))

insert-Agree : (k : Bytes) (t : ℕ) (a b : SyncMap) → Agree a b → Agree (insert k t a) (insert k t b)
insert-Agree k t a b agree j =
    lookup-insert k j t a
    ∙ (ap (λ l. if same k j then some t else l) (agree j) ∙ sym (lookup-insert k j t b))

times_after-Agree :
    (a b : SyncMap) (ms : List Message) (x y : SyncMap)
    → All (λ n. is_fresh a n ≡ is_fresh b n) ms
    → Agree x y
    → Agree (times_after a ms x) (times_after b ms y)
unfolding times_after
times_after-Agree a b [] x y h agree = agree
times_after-Agree a b (m ∷ ms) x y h agree = elim (Bool-cases (is_fresh b m)) [
  | inl e ↦
      rw (h.0, e) (times_after-Agree a b ms _ _ h.1 (insert-Agree (sender m) (time m) x y agree))
  | inr e ↦ rw (h.0, e) (times_after-Agree a b ms x y h.1 agree)
]

keep-cons :
    (f : Message → Bool) (m : Message) (ms : List Message)
    → keep f (m ∷ []) ++ keep f ms ≡ keep f (m ∷ ms)
keep-cons f m ms = elim (Bool-cases (f m)) [ inl e ↦ rw e refl | inr e ↦ rw e refl ]

push_each_lem :
    (ms : List Message) (r : Room)
    → IsReady r
    → Growing ms
    → let (o, t) = push_each ms r in
      (o ≡ ok tt)
      × (t.messages ≡ r.messages ++ keep (is_fresh r.sync_state) ms)
      × Agree t.sync_state (times_after r.sync_state ms (copy_sync_map r.sync_state))
      × IsReady t
unfolding push_each push_messages times_after note
push_each_lem [] r ready grow =
    (refl, sym (append-nil r.messages), λ k. sym (lookup-copy_sync_map k r.sync_state), ready)
push_each_lem (m ∷ ms) r ready grow =
    let s : Room = (push_messages (m ∷ []) r).1 in
    let fresh = is_fresh r.sync_state in
    let (e, messages, times, _, ready') =
      push_locked-lem (copy_sync_map r.sync_state) (m ∷ []) r ready in
    let times' : s.sync_state ≡ note r.sync_state m (copy_sync_map r.sync_state) = times in
    let (o, more, agree, ready'') = push_each_lem ms s ready' grow.1 in
    let all : All (λ n. is_fresh s.sync_state n ≡ fresh n) ms =
      rw times' (fresh-All r.sync_state m ms grow.0) in
    rw e (
      o,
      more
          ∙ (ap (λ l. l ++ keep (is_fresh s.sync_state) ms) messages
              ∙ (ap (λ l. (r.messages ++ keep fresh (m ∷ [])) ++ l)
                    (keep-same s.sync_state r.sync_state ms all)
                  ∙ (append_assoc r.messages (keep fresh (m ∷ [])) (keep fresh ms)
                      ∙ ap (λ l. r.messages ++ l) (keep-cons fresh m ms)))),
      λ k.
          agree k
          ∙ times_after-Agree s.sync_state r.sync_state ms (copy_sync_map s.sync_state)
              (note r.sync_state m (copy_sync_map r.sync_state)) all
              (λ j. lookup-copy_sync_map j s.sync_state ∙ ap (lookup j) times') k,
      ready'',
    )

-- In a ready room, a batch of messages whose times grow, sender by sender, does what its messages do
-- one by one: neither panics, and the room has the same messages in the same order and the same time
-- of every sender.
pub push_messages-push_each :
    (ms : List Message) (r : Room)
    → IsReady r
    → Growing ms
    → let (o, t) = push_messages ms r in
      let (p, u) = push_each ms r in
      (o ≡ ok tt) × (p ≡ ok tt) × (t.messages ≡ u.messages) × Agree t.sync_state u.sync_state
unfolding push_messages
push_messages-push_each ms r ready grow =
    let (e, messages, times, _, _) = push_locked-lem (copy_sync_map r.sync_state) ms r ready in
    let (o, messages', agree, _) = push_each_lem ms r ready grow in
    (e, o, messages ∙ sym messages', λ k. ap (lookup k) times ∙ sym (agree k))
