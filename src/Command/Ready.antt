-- ===== src/Command/Ready.antt =====
-- Commands leave a room ready, so that none of them ever ends the daemon.
use onionmsg.Base.{
  ◌≡◌, ◌≢◌, true, List, [], ◌∷◌, Bytes, All, All-append, Error, ok, err, panic, Option-cases,
  Bool-cases, arith, inl, inr, >>=-eq-ok, ok-injective, same,
}
use onionmsg.Base64.RoundTrip.{decode_cases}
use onionmsg.Identity.{Identity, IdentityMeta, remote, new_identity}
use onionmsg.Message.{Message}
use onionmsg.Peer.{
  Peer, Context, active, cancelled, absent, start_queue, peer_fingerprint, new_messaging_peer,
}
use onionmsg.Room
use onionmsg.Room.{Room, find_peer, peer_by_fingerprint, is_self, without_peer}
use onionmsg.Command.NoPanic.{has_meta, IsReady}
use onionmsg.Command.Cases.{
  Result, invite_cases, name_room_cases, nick_cases, promote_cases, remove_peer_cases, room_cases,
}
use onionmsg.Command.{
  MetaRef, of_peer, of_self, write_ref, write_peers, write_peer, write_meta, start_and_append,
  promoted, removed, set_nick, set_admin, handle_command, room_commands,
}

pub new_identity-has_meta :
    (fp : Bytes) (i : Identity) → new_identity remote [] fp ≡ ok i → has_meta i ≡ true
unfolding new_identity
new_identity-has_meta fp i h = ground (arith, decode_cases fp)

write_meta-has_meta :
    (f : IdentityMeta → IdentityMeta) (i j : Identity) → write_meta f i ≡ ok j → has_meta j ≡ true
unfolding write_meta
write_meta-has_meta f i j h = ground arith

pub start_queue-identity :
    (c : Context) (p q : Peer) → start_queue c p ≡ ok q → q.r_identity ≡ p.r_identity
unfolding start_queue
start_queue-identity absent p q h = ground arith
start_queue-identity active p q h = ground arith
start_queue-identity cancelled p q h = ground arith

pub removed-room :
    (r t : Room) (fp : Bytes)
    → removed fp r ≡ ok t
    → t ≡ record r { peers = without_peer fp r.peers }
unfolding removed Room.remove_peer
removed-room r t fp h = ground arith

abbrev AllMeta : List Peer → Type 0
AllMeta = All (λ p. has_meta p.r_identity ≡ true)

write_peers-AllMeta :
    (f : IdentityMeta → IdentityMeta) (fp : Bytes) (ps qs : List Peer)
    → AllMeta ps
    → write_peers f fp ps ≡ ok qs
    → AllMeta qs
unfolding write_peers write_peer write_meta
write_peers-AllMeta f fp [] qs h e = ground arith
write_peers-AllMeta f fp (p ∷ ps) qs h e = elim (Bool-cases (same (peer_fingerprint p) fp)) [
  | inl hit ↦
      let (q, hq, hqs) = >>=-eq-ok (write_peer f p) _ (rw hit at e) in
      rw (← ok-injective hqs) (ground arith)
  | inr miss ↦
      let (rest, hrest, hqs) = >>=-eq-ok (write_peers f fp ps) _ (rw miss at e) in
      rw (← ok-injective hqs) (h.0, write_peers-AllMeta f fp ps rest h.1 hrest)
]

without_peer-AllMeta : (fp : Bytes) (ps : List Peer) → AllMeta ps → AllMeta (without_peer fp ps)
unfolding without_peer
without_peer-AllMeta fp [] h = tt
without_peer-AllMeta fp (p ∷ ps) h = ground (arith, without_peer-AllMeta fp ps h.1)

module _ (r t : Room) (ready : IsReady r) where
  write_ref-IsReady :
      (f : IdentityMeta → IdentityMeta) (ref : MetaRef) → write_ref f ref r ≡ ok t → IsReady t
  unfolding write_ref
  write_ref-IsReady f (of_peer fp) h =
      let (qs, hqs, ht) = >>=-eq-ok (write_peers f fp r.peers) _ h in
      rw (← ok-injective ht) (record {
        self_meta = ready.self_meta;
        peers_meta = write_peers-AllMeta f fp r.peers qs ready.peers_meta hqs;
        has_ctx = ready.has_ctx;
      })
  write_ref-IsReady f of_self h =
      let (i, hi, ht) = >>=-eq-ok (write_meta f r.self) _ h in
      rw (← ok-injective ht) (record {
        self_meta = write_meta-has_meta f r.self i hi;
        peers_meta = ready.peers_meta;
        has_ctx = ready.has_ctx;
      })

  start_and_append-IsReady :
      (p : Peer) → has_meta p.r_identity ≡ true → start_and_append p r ≡ ok t → IsReady t
  unfolding start_and_append
  start_and_append-IsReady p meta h =
      let (q, hq, ht) = >>=-eq-ok (start_queue r.ctx p) _ h in
      rw (← ok-injective ht) (record {
        self_meta = ready.self_meta;
        peers_meta =
            All-append _ r.peers (q ∷ []) ready.peers_meta
              (rw (start_queue-identity r.ctx p q hq) meta, tt);
        has_ctx = ready.has_ctx;
      })

  removed-IsReady : (fp : Bytes) → removed fp r ≡ ok t → IsReady t
  removed-IsReady fp h = rw (removed-room r t fp h) (record {
    self_meta = ready.self_meta;
    peers_meta = without_peer-AllMeta fp r.peers ready.peers_meta;
    has_ctx = ready.has_ctx;
  })

  promoted-IsReady : (fp : Bytes) → promoted fp r ≡ ok t → IsReady t
  unfolding promoted
  promoted-IsReady fp h = elim (Option-cases (peer_by_fingerprint r fp)) [
    | inr (i, e) ↦ write_ref-IsReady set_admin (of_peer fp) (ground arith)
    | inl e ↦ elim (Bool-cases (is_self r fp)) [
      | inl own ↦ write_ref-IsReady set_admin of_self (ground arith)
      | inr other ↦ absurd (ground arith)
    ]
  ]

-- The command did not panic, and the room is ready for the next.
abbrev pub Survives : Result → Type 0
Survives (o, t) = (o ≢ panic) × IsReady t

-- In a ready room, no message with whatever content makes the command handler panic, and the room
-- is ready again after it, whether the command succeeds or fails.
pub handle_command-IsReady :
    (r : Room) (m : Message) → IsReady r → Survives (handle_command room_commands m r)
unfolding new_messaging_peer
handle_command-IsReady r m ready =
    room_cases Survives r m fails
      (λ k. invite_cases Survives r ready m k fails (λ fp i t _ made added.
        (λ e. cc, start_and_append-IsReady r t ready _ (meta_of_new fp i made) added)))
      (λ k. name_room_cases Survives r ready m k fails (λ name. (λ e. cc, ground arith)))
      (λ k. nick_cases Survives r ready m k fails (λ name i ref t _ written.
        (λ e. cc, write_ref-IsReady r t ready (set_nick name) ref written)))
      (λ k.
        promote_cases Survives r ready m k fails
          (λ fp i ref t _ written. (λ e. cc, promoted-IsReady r t ready fp written)))
      (λ k.
        remove_peer_cases Survives r ready m k fails
          (λ fp i ref t _ gone. (λ e. cc, removed-IsReady r t ready fp gone)))
  where
    fails : (e : Error) → Survives (err e, r)
    fails e = (λ p. cc, ready)

    meta_of_new :
        (fp : Bytes) (i : Identity)
        → new_identity remote [] fp ≡ ok i
        → has_meta (new_messaging_peer i).r_identity ≡ true
    meta_of_new fp i made = new_identity-has_meta fp i made
