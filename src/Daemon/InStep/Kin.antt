-- ===== src/Daemon/InStep/Kin.antt =====
-- What is done to a room keeps it the same room: its id, its keys, and that it is ready.
use onionmsg.Base.{
  ℕ, suc, ◌≡◌, refl, ◌∙◌, true, List, [], ◌∷◌, map, Outcome, ok, err, panic, All, ok-injective,
  >>=-eq-ok, arith,
}
use onionmsg.Exec.{Exec, resume, ◌>>=◌}
use onionmsg.Ed25519.{Scheme}
use onionmsg.Message.{Marshal, Message, MessageContent, new_message}
use onionmsg.SyncMap.{copy_sync_map}
use onionmsg.Peer.{Peer, Context, start_queue, bump_queue, peer_fingerprint}
use onionmsg.Room.{Room, run_message_queue_for_all_peers, start_all}
use onionmsg.Command.NoPanic.{IsReady, has_meta}
use onionmsg.Command.Frame.{SameKeys}
use onionmsg.Command.Ready.{start_queue-identity}
use onionmsg.Push.{
  push_messages, send_message_to_all_peers, sync_peer_lists, sync_loop, invite_content,
}
use onionmsg.Push.Batch.{push_locked-lem, push_locked-SameKeys}

pub record Kin (r t : Room) : Type 0 where
  pub id : t.id ≡ r.id
  pub keys : SameKeys r.self t.self
  pub ready : IsReady t

pub Kin-refl : (r : Room) → IsReady r → Kin r r
Kin-refl r ready = record { id = refl; keys = (refl, refl); ready = ready }

pub Kin-trans : {r s t : Room} → Kin r s → Kin s t → Kin r t
Kin-trans g h = record {
  id = h.id ∙ g.id;
  keys = (h.keys.0 ∙ g.keys.0, h.keys.1 ∙ g.keys.1);
  ready = h.ready;
}

-- A method that leaves the room the same, however it ends.
abbrev pub Keeps : {A : Type 0} → Exec Room A → Type 0
Keeps m = (r : Room) → IsReady r → Kin r (m r).1

resume-Kin :
    {A B : Type 0} (r s : Room) (o : Outcome A) (k : A → Exec Room B)
    → Kin r s
    → ((a : A) → Keeps (k a))
    → Kin r (resume o k s).1
resume-Kin r s (ok a) k kin rest = Kin-trans kin (rest a s kin.ready)
resume-Kin r s (err e) k kin rest = kin
resume-Kin r s panic k kin rest = kin

pub then-Keeps :
    {A B : Type 0} (m : Exec Room A) (k : A → Exec Room B)
    → Keeps m
    → ((a : A) → Keeps (k a))
    → Keeps (m >>= k)
then-Keeps m k first rest r ready = resume-Kin r (m r).1 (m r).0 k (first r ready) rest

pub push_messages-Keeps : (ms : List Message) → Keeps (push_messages ms)
unfolding push_messages
push_messages-Keeps ms r ready =
    let (_, _, _, id, ready') = push_locked-lem (copy_sync_map r.sync_state) ms r ready in
    record {
      id = id;
      keys = push_locked-SameKeys (copy_sync_map r.sync_state) ms r ready;
      ready = ready';
    }

abbrev pub AllMeta : List Peer → Type 0
AllMeta = All (λ p. has_meta p.r_identity ≡ true)

bump-AllMeta : (ps : List Peer) → AllMeta ps → AllMeta (map bump_queue ps)
unfolding bump_queue
bump-AllMeta [] h = tt
bump-AllMeta (p ∷ ps) h = (h.0, bump-AllMeta ps h.1)

module _ (c : Scheme) (j : Marshal) where
  pub send-Keeps : (now : ℕ) (k : MessageContent) → Keeps (send_message_to_all_peers c j now k)
  unfolding send_message_to_all_peers
  send-Keeps now k r ready =
      resume-Kin r r (new_message c j now k r.self) _ (Kin-refl r ready) (λ m.
        then-Keeps (push_messages (m ∷ [])) _ (push_messages-Keeps (m ∷ [])) (λ u s ready'. record {
          id = refl;
          keys = (refl, refl);
          ready = record {
            self_meta = ready'.self_meta;
            peers_meta = bump-AllMeta s.peers ready'.peers_meta;
            has_ctx = ready'.has_ctx;
          };
        }))

  sync_loop-Keeps : (times : ℕ → ℕ) (n : ℕ) (ps : List Peer) → Keeps (sync_loop c j times n ps)
  unfolding sync_loop
  sync_loop-Keeps times n [] = Kin-refl
  sync_loop-Keeps times n (p ∷ ps) =
      then-Keeps (send_message_to_all_peers c j (times n) (invite_content c j (peer_fingerprint p)))
        _ (send-Keeps (times n) (invite_content c j (peer_fingerprint p)))
        (λ u. sync_loop-Keeps times (suc n) ps)

  pub sync_peer_lists-Keeps : (times : ℕ → ℕ) → Keeps (sync_peer_lists c j times)
  unfolding sync_peer_lists
  sync_peer_lists-Keeps times r = sync_loop-Keeps times 0 r.peers r

start_all-AllMeta :
    (ctx : Context) (ps qs : List Peer) → start_all ctx ps ≡ ok qs → AllMeta ps → AllMeta qs
unfolding start_all
start_all-AllMeta ctx [] qs e h = ground arith
start_all-AllMeta ctx (p ∷ ps) qs e h =
    let (q, hq, rest) = >>=-eq-ok (start_queue ctx p) _ e in
    let (others, ho, hqs) = >>=-eq-ok (start_all ctx ps) _ rest in
    rw (← ok-injective hqs)
      (rw (start_queue-identity ctx p q hq) h.0, start_all-AllMeta ctx ps others ho h.1)

pub run_queues-Kin : (r t : Room) → IsReady r → run_message_queue_for_all_peers r ≡ ok t → Kin r t
unfolding run_message_queue_for_all_peers
run_queues-Kin r t ready e = go (start_all r.ctx r.peers) refl e
  where
    go :
        (o : Outcome (List Peer))
        → start_all r.ctx r.peers ≡ o
        → run_message_queue_for_all_peers r ≡ ok t
        → Kin r t
    go (ok qs) h e =
        let this : record r { peers = qs } ≡ t = ok-injective (rw h at e) in
        rw (← this) (record {
          id = refl;
          keys = (refl, refl);
          ready = record {
            self_meta = ready.self_meta;
            peers_meta = start_all-AllMeta r.ctx r.peers qs h ready.peers_meta;
            has_ctx = ready.has_ctx;
          };
        })
    go (err f) h e = absurd (let e' = rw h at e in ground arith)
    go panic h e = absurd (let e' = rw h at e in ground arith)
