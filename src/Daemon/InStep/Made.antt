-- ===== src/Daemon/InStep/Made.antt =====
-- The making of rooms and peers keeps a daemon in step.
use onionmsg.Base.{
  ℕ, ◌≡◌, ◌≢◌, refl, ap, sym, ◌∙◌, true, List, [], ◌∷◌, ◌++◌, Option, none, some, Bytes, Outcome,
  ok, err, panic, All, All-append, Option-cases, inl, inr, ok-injective, >>=-eq-ok, arith,
}
use onionmsg.Base
use onionmsg.Exec.{Exec, resume, write_or, try_modify, ◌>>◌}
use onionmsg.Ed25519.{Scheme}
use onionmsg.Identity.{Identity, self, remote, new_identity}
use onionmsg.Identity.Keys.{new_identity_keys}
use onionmsg.Message.{Marshal}
use onionmsg.Peer.{Peer, Context, active, start_queue}
use onionmsg.Room.{Room, set_context}
use onionmsg.Command.NoPanic.{has_meta}
use onionmsg.Command.Ready.{start_queue-identity}
use onionmsg.Push.{sync_peer_lists}
use onionmsg.Tor.{Controller}
use onionmsg.Daemon.State.{Daemon, has_id, get_room}
use onionmsg.Daemon.Services.{Ports}
use onionmsg.Daemon.Rooms.{
  make_peers, start_peers, add_peers, as_admin, new_room, identities, create_room, add_in,
  add_peer_to_room,
}
use onionmsg.Daemon.InStep.{Laws, InStep, RoomOk}
use onionmsg.Daemon.InStep.Lists.{find_first-All}
use onionmsg.Daemon.InStep.Kin.{Kin, Kin-refl, Keeps, then-Keeps, sync_peer_lists-Keeps, AllMeta}
use onionmsg.Daemon.InStep.Services.{Stays, resume-Stays}
use onionmsg.Daemon.InStep.Registered.{register_room-Stays, IsOwn-of}
use onionmsg.Daemon.InStep.Operations.{write_room, Kin-RoomOk}

-- Dialling a contact makes peers that have metadata, as `NewIdentity` gives it to every remote.
abbrev pub MakesPeers : (Room → Identity → Outcome Peer) → Type 0
MakesPeers make =
    (r : Room) (i : Identity) (p : Peer) → make r i ≡ ok p → has_meta p.r_identity ≡ true

module _ (c : Scheme) (j : Marshal) (make : Room → Identity → Outcome Peer) (times : ℕ → ℕ)
    (made : MakesPeers make) where
  make_peers-AllMeta :
      (r : Room) (is : List Identity) (ps : List Peer)
      → make_peers c j make times r is ≡ ok ps
      → AllMeta ps
  unfolding make_peers
  make_peers-AllMeta r [] ps h = rw (← ok-injective h) tt
  make_peers-AllMeta r (i ∷ is) ps h =
      let (p, hp, rest) = >>=-eq-ok (make r i) _ h in
      let (qs, hqs, e) = >>=-eq-ok (make_peers c j make times r is) _ rest in
      rw (← ok-injective e) (made r i p hp, make_peers-AllMeta r is qs hqs)

  start_peers-AllMeta :
      (ctx : Context) (ps qs : List Peer)
      → AllMeta ps
      → start_peers c j make times ctx ps ≡ ok qs
      → AllMeta qs
  unfolding start_peers
  start_peers-AllMeta ctx [] qs meta h = rw (← ok-injective h) tt
  start_peers-AllMeta ctx (p ∷ ps) qs meta h =
      let (q, hq, rest) = >>=-eq-ok (start_queue ctx p) _ h in
      let (others, ho, e) = >>=-eq-ok (start_peers c j make times ctx ps) _ rest in
      rw (← ok-injective e)
        (rw (start_queue-identity ctx p q hq) meta.0, start_peers-AllMeta ctx ps others meta.1 ho)

  abbrev start_new : List Peer → Exec Room (Unit {0})
  start_new ps = try_modify (λ r.
      Base.◌>>=◌ (start_peers c j make times r.ctx ps)
        λ started. ok (record r { peers = r.peers ++ started }))

  start_new-Keeps : (ps : List Peer) → AllMeta ps → Keeps (start_new ps)
  start_new-Keeps ps meta r ready = go (start_peers c j make times r.ctx ps) refl
    where
      go :
          (o : Outcome (List Peer))
          → start_peers c j make times r.ctx ps ≡ o
          → Kin r
              (write_or (Base.◌>>=◌ o λ started. ok (record r { peers = r.peers ++ started })) r).1
      go (ok qs) e = record {
        id = refl;
        keys = (refl, refl);
        ready = record {
          self_meta = ready.self_meta;
          peers_meta =
              All-append (λ p. has_meta p.r_identity ≡ true) r.peers qs ready.peers_meta
                (start_peers-AllMeta r.ctx ps qs meta e);
          has_ctx = ready.has_ctx;
        };
      }
      go (err g) e = Kin-refl r ready
      go panic e = Kin-refl r ready

  pub add_peers-Keeps : (contacts : List Identity) → Keeps (add_peers c j make times contacts)
  unfolding add_peers
  add_peers-Keeps contacts r ready = go (make_peers c j make times r contacts) refl
    where
      rest : List Peer → Exec Room (Unit {0})
      rest ps = do start_new ps; sync_peer_lists c j times

      go :
          (o : Outcome (List Peer))
          → make_peers c j make times r contacts ≡ o
          → Kin r (resume o rest r).1
      go (ok ps) e =
          then-Keeps (start_new ps) (λ u. sync_peer_lists c j times)
            (start_new-Keeps ps (make_peers-AllMeta r contacts ps e))
            (λ u. sync_peer_lists-Keeps c j times) r ready
      go (err g) e = Kin-refl r ready
      go panic e = Kin-refl r ready

  as_admin_lem :
      (i own : Identity)
      → as_admin c j make times i ≡ ok own
      → (own.priv ≡ i.priv) × (own.pub_key ≡ i.pub_key) × (has_meta own ≡ true)
  unfolding as_admin
  as_admin_lem i own h = elim (Option-cases i.meta) [
    | inl e ↦ absurd (let h' = rw e at h in ground arith)
    | inr (m, e) ↦ let same = ok-injective (rw e at h) in rw (← same) (refl, refl, refl)
  ]

  -- A room that is made: what it has before its peers, and what it is at the end.
  abbrev bare : Identity → Bytes → Room
  bare own id = record {
    self = own;
    peers = [];
    id = id;
    name = [];
    messages = [];
    sync_state = [];
    ctx = active;
  }

  pub new_room-RoomOk :
      (key id : Bytes) (contacts : List Identity) (r : Room)
      → c.is_key key ≡ true
      → new_room c j make times key id contacts ≡ ok r
      → RoomOk c r
  unfolding new_room set_context
  new_room-RoomOk key id contacts r generated h =
      let (i, hi, rest) = >>=-eq-ok (new_identity self key []) _ h in
      let (own, ho, rest') = >>=-eq-ok (as_admin c j make times i) _ rest in
      let (u, hu, e) = >>=-eq-ok (add_peers c j make times contacts (bare own id)).0 _ rest' in
      let (priv, pub_key) = new_identity_keys c key generated self [] (λ p. cc) hi in
      let (priv', pub_key', meta) = as_admin_lem i own ho in
      let fit : RoomOk c (bare own id) = (
        IsOwn-of c key own generated (priv' ∙ priv) (pub_key' ∙ pub_key),
        record { self_meta = meta; peers_meta = tt; has_ctx = λ p. cc },
      ) in
      rw (← ok-injective e) (Kin-RoomOk c (add_peers-Keeps contacts (bare own id) fit.1) fit)

  module _ (ctrl : Controller) (laws : Laws c ctrl) where
    pub create_room-Stays :
        (ports : Ports) (key id : Bytes) (fps : List Bytes)
        → c.is_key key ≡ true
        → Stays c ctrl (create_room c j make times ctrl ports key id fps)
    unfolding create_room
    create_room-Stays ports key id fps generated d s =
        resume-Stays c ctrl (identities c j make times fps) _ d s (λ ids e.
          resume-Stays c ctrl (new_room c j make times key id ids) _ d s (λ r h.
            register_room-Stays c ctrl laws ports r (new_room-RoomOk key id ids r generated h) d s))

    add_in-Stays :
        (id fp : Bytes) (found : Option Room) (d : Daemon)
        → get_room id d ≡ found
        → InStep c ctrl d
        → InStep c ctrl (add_in c j make times id fp found d).1
    unfolding add_in
    add_in-Stays id fp none d e s = s
    add_in-Stays id fp (some r) d e s =
        let fit : RoomOk c r =
          find_first-All (RoomOk c) (has_id id) d.rooms r (unfold get_room in e) s.rooms in
        resume-Stays c ctrl (new_identity remote [] fp) _ d s (λ i h.
          write_room c ctrl id d r (add_peers c j make times (i ∷ []) r).1 e
            (add_peers-Keeps (i ∷ []) r fit.1) s)

    pub add_peer_to_room-Stays :
        (id fp : Bytes) → Stays c ctrl (add_peer_to_room c j make times id fp)
    unfolding add_peer_to_room
    add_peer_to_room-Stays id fp d s = add_in-Stays id fp (get_room id d) d refl s
