-- ===== src/Command/Authority.antt =====
-- Who may change what: without the rights of an administrator in this room, a message makes nobody
-- an administrator and removes nobody.
use onionmsg.Base.{
  ◌≡◌, refl, Bool, true, false, List, [], ◌∷◌, ◌++◌, map, some, none, Option, Bytes, Error, ok, err,
  if◌then◌else◌, Bool-cases, arith, inl, inr, >>=-eq-ok, ok-injective, same, same_iff, append-nil,
}
use mathlib.Core.List.{map-append}
use onionmsg.Base64.RoundTrip.{decode_cases}
use onionmsg.Identity.{Identity, remote, new_identity, admin, fingerprint}
use onionmsg.Message.{Message, meta_of}
use onionmsg.Peer.{Peer, peer_fingerprint, start_queue, new_messaging_peer}
use onionmsg.Room.{Room, find_peer, peer_by_fingerprint}
use onionmsg.Command.NoPanic.{IsReady, get_sender-Found}
use onionmsg.Command.Cases.{
  Result, invite_cases, name_room_cases, nick_cases, promote_cases, remove_peer_cases, room_cases,
}
use onionmsg.Command.Ready.{start_queue-identity}
use onionmsg.Command.{
  MetaRef, of_peer, of_self, get_sender, write_ref, write_peers, write_peer, write_meta,
  start_and_append, set_nick, handle_command, room_commands,
}

-- Whether the room holds a fingerprint to be an administrator: a peer's before its own.
unfoldable pub is_admin : Room → Bytes → Bool
is_admin r fp = elim (peer_by_fingerprint r fp) [
  | some i ↦ admin i
  | none ↦ if same (fingerprint r.self) fp then admin r.self else false
]

abbrev pub roster : Room → List Bytes
roster r = map peer_fingerprint r.peers

pub record NoEscalation (r t : Room) : Type 0 where
  pub admins : (fp : Bytes) → is_admin t fp ≡ true → is_admin r fp ≡ true
  pub kept : (rest : List Bytes) × (roster t ≡ roster r ++ rest)

-- What `getSender` lets through for an administrator's command is one.
pub get_sender-is_admin :
    (r : Room) (fp : Bytes) (i : Identity) (ref : MetaRef)
    → get_sender fp true r ≡ ok (i, ref)
    → is_admin r fp ≡ true
unfolding is_admin
get_sender-is_admin r fp i ref h =
    let (found, adm) = get_sender-Found r fp true i ref h in
    elim found [
      | inl (_, e) ↦ rw (e, is_admin) (adm refl)
      | inr (_, e, own, same_i) ↦
          rw (e, is_admin) (ground (arith, adm refl, same_iff (fingerprint r.self) fp))
    ]

admin_in : Option Peer → Option Bool
admin_in none = none
admin_in (some p) = some (admin p.r_identity)

-- A room's verdict rests on the first peer's flag, and on the flag and the fingerprint of its own.
verdict : Option Bool → Identity → Bytes → Bool
verdict (some b) self fp = b
verdict none self fp = if same (fingerprint self) fp then admin self else false

is_admin-verdict :
    (r : Room) (fp : Bytes) → is_admin r fp ≡ verdict (admin_in (find_peer fp r.peers)) r.self fp
unfolding is_admin verdict admin_in peer_by_fingerprint
is_admin-verdict r fp = ground arith

find_peer-append :
    (fp : Bytes) (ps : List Peer) (q : Peer)
    → find_peer fp (ps ++ (q ∷ [])) ≡ elim (find_peer fp ps) [
      | some p ↦ some p
      | none ↦ if same (peer_fingerprint q) fp then some q else none
    ]
unfolding find_peer
find_peer-append fp [] q = ground arith
find_peer-append fp (p ∷ ps) q = ground (arith, find_peer-append fp ps q)

write_meta-admin :
    (n : Bytes) (i j : Identity)
    → write_meta (set_nick n) i ≡ ok j
    → (fingerprint j ≡ fingerprint i) × (admin j ≡ admin i)
unfolding write_meta fingerprint admin
write_meta-admin n i j h = ground arith

write_peer-admin :
    (n : Bytes) (p q : Peer)
    → write_peer (set_nick n) p ≡ ok q
    → (peer_fingerprint q ≡ peer_fingerprint p) × (admin q.r_identity ≡ admin p.r_identity)
unfolding write_peer
write_peer-admin n p q h =
    let (i, hi, hq) = >>=-eq-ok (write_meta (set_nick n) p.r_identity) _ h in
    rw (← ok-injective hq) (write_meta-admin n p.r_identity i hi)

write_peers-admin :
    (n fp g : Bytes) (ps qs : List Peer)
    → write_peers (set_nick n) fp ps ≡ ok qs
    → (admin_in (find_peer g qs) ≡ admin_in (find_peer g ps))
      × (map peer_fingerprint qs ≡ map peer_fingerprint ps)
unfolding write_peers find_peer admin_in
write_peers-admin n fp g [] qs h = ground arith
write_peers-admin n fp g (p ∷ ps) qs h = elim (Bool-cases (same (peer_fingerprint p) fp)) [
  | inl hit ↦
      let (q, hq, hqs) = >>=-eq-ok (write_peer (set_nick n) p) _ (rw hit at h) in
      rw (← ok-injective hqs) (ground (arith, write_peer-admin n p q hq))
  | inr miss ↦
      let (rest, hrest, hqs) = >>=-eq-ok (write_peers (set_nick n) fp ps) _ (rw miss at h) in
      rw (← ok-injective hqs) (ground (arith, write_peers-admin n fp g ps rest hrest))
]

-- A change of a nickname leaves every verdict and the list of members as they are.
write_ref-NoEscalation :
    (n : Bytes) (ref : MetaRef) (r t : Room)
    → write_ref (set_nick n) ref r ≡ ok t
    → NoEscalation r t
unfolding write_ref verdict
write_ref-NoEscalation n (of_peer fp) r t h =
    let (qs, hqs, ht) = >>=-eq-ok (write_peers (set_nick n) fp r.peers) _ h in
    rw (← ok-injective ht) (record {
      admins = λ g a. cc (
        is_admin-verdict r g,
        is_admin-verdict (record r { peers = qs }) g,
        (write_peers-admin n fp g r.peers qs hqs).0,
        a,
      );
      kept = ([], rw append-nil (write_peers-admin n fp [] r.peers qs hqs).1);
    })
write_ref-NoEscalation n of_self r t h =
    let (i, hi, ht) = >>=-eq-ok (write_meta (set_nick n) r.self) _ h in
    rw (← ok-injective ht) (record {
      admins = λ g a. ground (
        arith,
        is_admin-verdict r g,
        is_admin-verdict (record r { self = i }) g,
        write_meta-admin n r.self i hi,
      );
      kept = ([], rw append-nil);
    })

start_and_append-NoEscalation :
    (p : Peer) (r t : Room)
    → admin p.r_identity ≡ false
    → start_and_append p r ≡ ok t
    → NoEscalation r t
unfolding start_and_append verdict admin_in
start_and_append-NoEscalation p r t plain h =
    let (q, hq, ht) = >>=-eq-ok (start_queue r.ctx p) _ h in
    rw (← ok-injective ht) (record {
      admins = λ g a. ground (
        arith,
        is_admin-verdict r g,
        is_admin-verdict (record r { peers = r.peers ++ (q ∷ []) }) g,
        find_peer-append g r.peers q,
        start_queue-identity r.ctx p q hq,
      );
      kept = (peer_fingerprint q ∷ [], map-append peer_fingerprint r.peers (q ∷ []));
    })

new_identity-admin :
    (fp : Bytes) (i : Identity) → new_identity remote [] fp ≡ ok i → admin i ≡ false
unfolding new_identity admin
new_identity-admin fp i h = ground (arith, decode_cases fp)

NoEscalation-refl : (r : Room) → NoEscalation r r
NoEscalation-refl r = record { admins = λ fp a. a; kept = ([], rw append-nil) }

rename-NoEscalation : (r : Room) (name : Bytes) → NoEscalation r (record r { name = name })
rename-NoEscalation r name = record {
  admins = λ fp a. cc (is_admin-verdict r fp, is_admin-verdict (record r { name = name }) fp, a);
  kept = ([], rw append-nil);
}

-- In a ready room, a message whose sender is no administrator of the room, whatever its content,
-- makes nobody an administrator of it, and the list of members keeps all its entries in order and at
-- most grows at its end.
pub handle_command-NoEscalation :
    (r : Room) (m : Message)
    → IsReady r
    → is_admin r (meta_of m).sender ≡ false
    → NoEscalation r (handle_command room_commands m r).1
unfolding new_messaging_peer
handle_command-NoEscalation r m ready plain =
    let P : Result → Type 0 = λ (o, t). NoEscalation r t in
    let fails : (e : Error) → P (err e, r) = λ e. NoEscalation-refl r in
    room_cases P r m fails
      (λ k. invite_cases P r ready m k fails (λ fp i t _ made added.
        start_and_append-NoEscalation (new_messaging_peer i) r t (new_identity-admin fp i made)
          added))
      (λ k. name_room_cases P r ready m k fails (λ name. rename-NoEscalation r name))
      (λ k.
        nick_cases P r ready m k fails
          (λ name i ref t _ written. write_ref-NoEscalation name ref r t written))
      (λ k. promote_cases P r ready m k fails (λ fp i ref t found _. absurd (refused i ref found)))
      (λ k.
        remove_peer_cases P r ready m k fails (λ fp i ref t found _. absurd (refused i ref found)))
  where
    refused :
        (i : Identity) (ref : MetaRef) → get_sender (meta_of m).sender true r ≡ ok (i, ref) → ⊥
    refused i ref found = cc (get_sender-is_admin r (meta_of m).sender i ref found)
