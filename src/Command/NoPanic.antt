-- ===== src/Command/NoPanic.antt =====
-- In a room that is ready, no part of a command handler follows a nil pointer or reads out of range.
use onionmsg.Base.{
  ◌≤◌, ◌≡◌, ◌≢◌, Bool, true, false, ◌⊎◌, inl, inr, List, [], ◌∷◌, none, some, Bytes, All, length,
  same, same_iff, split-ne-nil, index, ok, panic, Bool-cases, Option-cases, arith,
}
use onionmsg.Base64.RoundTrip.{decode_cases}
use onionmsg.Identity.{Identity, IdentityMeta, remote, new_identity, fingerprint, admin}
use onionmsg.Message.{Message, content_of, data_of, is_command, command_delimiter}
use onionmsg.Peer.{Peer, absent, start_queue}
use onionmsg.Room
use onionmsg.Room.{Room, find_peer, peer_by_fingerprint}
use onionmsg.Command.{
  parse_command, get_sender, check_admin, write_ref, write_peers, promoted, set_admin,
  start_and_append, removed, MetaRef, of_peer, of_self,
}

abbrev pub has_meta : Identity → Bool
has_meta i = elim i.meta [ none ↦ false | some m ↦ true ]

-- Every member has metadata and the room has a context, so that no nil pointer is followed.
pub record IsReady (r : Room) : Type 0 where
  pub self_meta : has_meta r.self ≡ true
  pub peers_meta : All (λ p. has_meta p.r_identity ≡ true) r.peers
  pub has_ctx : r.ctx ≢ absent

-- None of the parts panics.
pub parse_command-length :
    (m : Message) (actual expected : Bytes) {args : List Bytes}
    → parse_command m actual expected 2 ≡ ok args
    → 2 ≤ length args
unfolding parse_command
parse_command-length m actual expected h = ground arith

pub parse_command-ne-panic :
    (m : Message) (actual expected : Bytes) → parse_command m actual expected 2 ≢ panic
unfolding parse_command
parse_command-ne-panic m actual expected h = ground arith

pub index-ne-panic : (args : List Bytes) → 2 ≤ length args → index args 1 ≢ panic
index-ne-panic [] h e = omega arith
index-ne-panic (a ∷ []) h e = omega arith
index-ne-panic (a ∷ b ∷ args) h e = ground arith

pub new_identity-ne-panic : (fp : Bytes) → new_identity remote [] fp ≢ panic
unfolding new_identity
new_identity-ne-panic fp h = ground (arith, decode_cases fp)

find_peer-has_meta :
    (fp : Bytes) (ps : List Peer) (p : Peer)
    → All (λ q. has_meta q.r_identity ≡ true) ps
    → find_peer fp ps ≡ some p
    → has_meta p.r_identity ≡ true
unfolding find_peer
find_peer-has_meta fp [] p h e = ground arith
find_peer-has_meta fp (q ∷ ps) p h e = ground (arith, find_peer-has_meta fp ps p h.1)

write_peers-ne-panic :
    (f : IdentityMeta → IdentityMeta) (fp : Bytes) (ps : List Peer) (p : Peer)
    → All (λ q. has_meta q.r_identity ≡ true) ps
    → find_peer fp ps ≡ some p
    → write_peers f fp ps ≢ panic
unfolding find_peer write_peers
write_peers-ne-panic f fp [] p h e w = ground arith
write_peers-ne-panic f fp (q ∷ ps) p h e w = ground (arith, write_peers-ne-panic f fp ps p h.1)

check_admin_ok :
    (b : Bool) (fp : Bytes) (i j : Identity) (ref ref' : MetaRef)
    → check_admin b fp i ref ≡ ok (j, ref')
    → (i ≡ j) × (ref ≡ ref') × (b ≡ true → admin i ≡ true)
unfolding check_admin admin
check_admin_ok false fp i j ref ref' h = (ground arith, ground arith, λ e. ground arith)
check_admin_ok true fp i j ref ref' h = (ground arith, ground arith, λ e. ground arith)

-- Where `getSender` found the sender.
abbrev pub Found : Room → Bytes → Identity → MetaRef → Type 0
Found r fp i ref =
    ((ref ≡ of_peer fp) × (peer_by_fingerprint r fp ≡ some i))
    ⊎ ((ref ≡ of_self)
        × (peer_by_fingerprint r fp ≡ none)
        × (fingerprint r.self ≡ fp)
        × (r.self ≡ i))

pub get_sender-Found :
    (r : Room) (fp : Bytes) (b : Bool) (i : Identity) (ref : MetaRef)
    → get_sender fp b r ≡ ok (i, ref)
    → Found r fp i ref × (b ≡ true → admin i ≡ true)
unfolding get_sender
get_sender-Found r fp b i ref h = elim (Option-cases (peer_by_fingerprint r fp)) [
  | inr (j, e) ↦
      let (same_i, same_ref, is_admin) = check_admin_ok b fp j i (of_peer fp) ref (ground arith) in
      (inl (ground arith, ground arith), rw same_i at is_admin)
  | inl e ↦ elim (Bool-cases (same (fingerprint r.self) fp)) [
    | inr no_self ↦ absurd (ground arith)
    | inl own ↦
        let (same_i, same_ref, is_admin) =
          check_admin_ok b fp r.self i of_self ref (ground arith) in
        (inr (ground arith, e, (same_iff _ _).0 own, same_i), λ t. rw (← same_i) (is_admin t))
  ]
]

module _ (r : Room) (ready : IsReady r) where
  peer-has_meta :
      (fp : Bytes) (i : Identity) → peer_by_fingerprint r fp ≡ some i → has_meta i ≡ true
  unfolding peer_by_fingerprint
  peer-has_meta fp i e = elim (Option-cases (find_peer fp r.peers)) [
    | inl h ↦ ground arith
    | inr (p, h) ↦ ground (arith, find_peer-has_meta fp r.peers p ready.peers_meta h)
  ]

  pub get_sender-ne-panic : (fp : Bytes) (b : Bool) → get_sender fp b r ≢ panic
  unfolding get_sender check_admin
  get_sender-ne-panic fp true h = elim (Option-cases (peer_by_fingerprint r fp)) [
    | inl e ↦ ground arith
    | inr (i, e) ↦ ground (arith, peer-has_meta fp i e)
  ]
  get_sender-ne-panic fp false h = ground arith

  write_peer_ref-ne-panic :
      (f : IdentityMeta → IdentityMeta) (fp : Bytes) (i : Identity)
      → peer_by_fingerprint r fp ≡ some i
      → write_ref f (of_peer fp) r ≢ panic
  unfolding peer_by_fingerprint write_ref
  write_peer_ref-ne-panic f fp i e w = elim (Option-cases (find_peer fp r.peers)) [
    | inl h ↦ ground arith
    | inr (p, h) ↦ ground (arith, write_peers-ne-panic f fp r.peers p ready.peers_meta h)
  ]

  write_self_ref-ne-panic : (f : IdentityMeta → IdentityMeta) → write_ref f of_self r ≢ panic
  unfolding write_ref
  write_self_ref-ne-panic f w = ground arith

  -- The metadata that `getSender` found can be written.
  pub write_sender-ne-panic :
      (f : IdentityMeta → IdentityMeta) (fp : Bytes) (b : Bool) (i : Identity) (ref : MetaRef)
      → get_sender fp b r ≡ ok (i, ref)
      → write_ref f ref r ≢ panic
  write_sender-ne-panic f fp b i ref h = elim (get_sender-Found r fp b i ref h).0 [
    | inl (e, found) ↦ rw e (write_peer_ref-ne-panic f fp i found)
    | inr (e, _, _, _) ↦ rw e (write_self_ref-ne-panic f)
  ]

  pub promoted-ne-panic : (fp : Bytes) → promoted fp r ≢ panic
  unfolding promoted
  promoted-ne-panic fp w = elim (Option-cases (peer_by_fingerprint r fp)) [
    | inl h ↦ ground (arith, write_self_ref-ne-panic set_admin)
    | inr (i, h) ↦ ground (arith, write_peer_ref-ne-panic set_admin fp i h)
  ]

  pub start_and_append-ne-panic : (p : Peer) → start_and_append p r ≢ panic
  unfolding start_and_append start_queue
  start_and_append-ne-panic p w = ground (arith, ready.has_ctx)

pub is_command-ne-panic : (m : Message) → is_command m ≢ panic
unfolding is_command
is_command-ne-panic m w =
    let (word, words, e) = split-ne-nil command_delimiter (data_of (content_of m)) in
    ground (arith, e)

pub removed-ne-panic : (r : Room) (fp : Bytes) → removed fp r ≢ panic
unfolding removed Room.remove_peer
removed-ne-panic r fp w = ground arith
