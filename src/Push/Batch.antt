-- ===== src/Push/Batch.antt =====
-- What a batch of messages leaves in a room.
use mathlib.Core.List.{append_assoc}
use onionmsg.Base.{
  ◌≡◌, ◌≢◌, refl, ◌∙◌, ap, if◌then◌else◌, List, [], ◌∷◌, ◌++◌, keep, Outcome, ok, err, panic,
  Bool-cases, inl, inr, append-nil,
}
use onionmsg.Message.{Message, meta_of, content_of, type_of, is_cmd}
use onionmsg.SyncMap.{SyncMap, insert}
use onionmsg.Room.{Room}
use onionmsg.Command.NoPanic.{IsReady}
use onionmsg.Command.Ready.{handle_command-IsReady}
use onionmsg.Command.Frame.{Frame, SameKeys, Frame-refl, handle_command-Frame}
use onionmsg.Push.{
  run_command, swallow, append_message, is_fresh, set_times, push_loop, push_locked,
}

-- The times after a batch: that of each fresh message replaces its sender's.
unfoldable pub times_after : SyncMap → List Message → SyncMap → SyncMap
times_after times [] new_times = new_times
times_after times (m ∷ ms) new_times =
    times_after times ms
      (if is_fresh times m then insert (meta_of m).sender (meta_of m).time new_times else new_times)

-- What a step on the way did to the messages and the rest.
pub record Grown (r t : Room) (added : List Message) : Type 0 where
  pub messages : t.messages ≡ r.messages ++ added
  pub sync_state : t.sync_state ≡ r.sync_state
  pub id : t.id ≡ r.id
  pub ready : IsReady t
  pub keys : SameKeys r.self t.self

swallow-lem : (o : Outcome (Unit {0})) → o ≢ panic → swallow o ≡ ok tt
unfolding swallow
swallow-lem (ok x) h = refl
swallow-lem (err e) h = refl
swallow-lem panic h = absurd (h refl)

run_command-ok :
    (m : Message) (r : Room)
    → IsReady r
    → ((run_command m r).0 ≡ ok tt) × Frame r (run_command m r).1 × IsReady (run_command m r).1
unfolding run_command
run_command-ok m r ready = elim (Bool-cases (is_cmd (type_of (content_of m)))) [
  | inr e ↦ rw e (refl, Frame-refl r, ready)
  | inl e ↦
      let (safe, ready') = handle_command-IsReady r m ready in
      rw e (swallow-lem _ safe, handle_command-Frame r m ready, ready')
]

run_command-Grown :
    (m : Message) (r : Room) → IsReady r → Grown r (append_message m (run_command m r).1) (m ∷ [])
unfolding append_message
run_command-Grown m r ready =
    let (_, frame, ready') = run_command-ok m r ready in
    record {
      messages = ap (λ ms. ms ++ (m ∷ [])) frame.messages;
      sync_state = frame.sync_state;
      id = frame.id;
      ready = record {
        self_meta = ready'.self_meta;
        peers_meta = ready'.peers_meta;
        has_ctx = ready'.has_ctx;
      };
      keys = frame.keys;
    }

Grown-trans :
    {r s t : Room} {xs ys : List Message} → Grown r s xs → Grown s t ys → Grown r t (xs ++ ys)
Grown-trans {r} {s} {t} {xs} {ys} g h = record {
  messages = rw (h.messages, g.messages) (append_assoc r.messages xs ys);
  sync_state = h.sync_state ∙ g.sync_state;
  id = h.id ∙ g.id;
  ready = h.ready;
  keys = (h.keys.0 ∙ g.keys.0, h.keys.1 ∙ g.keys.1);
}

push_loop-lem :
    (times : SyncMap) (ms : List Message) (new_times : SyncMap) (r : Room)
    → IsReady r
    → ((push_loop times ms new_times r).0 ≡ ok (times_after times ms new_times))
      × Grown r (push_loop times ms new_times r).1 (keep (is_fresh times) ms)
unfolding push_loop times_after
push_loop-lem times [] new_times r ready = (
  refl,
  record {
    messages = rw append-nil;
    sync_state = refl;
    id = refl;
    ready = ready;
    keys = (refl, refl);
  },
)
push_loop-lem times (m ∷ ms) new_times r ready = elim (Bool-cases (is_fresh times m)) [
  | inr stale ↦ rw (stale, push_loop) (push_loop-lem times ms new_times r ready)
  | inl fresh ↦
      let grown = run_command-Grown m r ready in
      let (e, rest) =
        push_loop-lem times ms (insert (meta_of m).sender (meta_of m).time new_times) _
          grown.ready in
      rw (fresh, (run_command-ok m r ready).0, push_loop) (e, Grown-trans grown rest)
]

set_times-IsReady : (times : SyncMap) (r : Room) → IsReady r → IsReady (set_times times r)
set_times-IsReady times r ready = record {
  self_meta = ready.self_meta;
  peers_meta = ready.peers_meta;
  has_ctx = ready.has_ctx;
}

-- A batch in a ready room: nothing panics, the messages that are newer than the last of their sender
-- are appended in their order and the others dropped, the room stays ready and keeps its id, and the
-- times are those of the copy with the fresh messages' times put in.
pub push_locked-lem :
    (copy : SyncMap) (ms : List Message) (r : Room)
    → IsReady r
    → let (o, t) = push_locked copy ms r in
      (o ≡ ok tt)
      × (t.messages ≡ r.messages ++ keep (is_fresh r.sync_state) ms)
      × (t.sync_state ≡ times_after r.sync_state ms copy)
      × (t.id ≡ r.id)
      × IsReady t
unfolding push_locked
push_locked-lem copy ms r ready =
    let (e, grown) = push_loop-lem r.sync_state ms copy r ready in
    rw e (refl, grown.messages, refl, grown.id, set_times-IsReady _ _ grown.ready)

-- Such a batch changes no key of the room's own identity.
pub push_locked-SameKeys :
    (copy : SyncMap) (ms : List Message) (r : Room)
    → IsReady r
    → SameKeys r.self (push_locked copy ms r).1.self
unfolding push_locked
push_locked-SameKeys copy ms r ready =
    let (e, grown) = push_loop-lem r.sync_state ms copy r ready in rw e grown.keys
