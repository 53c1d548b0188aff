-- ===== src/Console/Steady.antt =====
-- Parts of a turn of the prompt that keep the daemon in step.
use onionmsg.Base.{
  ◌≡◌, refl, true, false, Bool, Bool-cases, if◌then◌else◌, All, List, [], ◌∷◌, ◌++◌, map,
  Outcome-cases, Bytes, same, inl, inr, ok, err, panic, Error, Outcome, >>=-eq-ok, ok-injective,
  arith,
}
use onionmsg.Exec.{Exec, resume, ◌>>=◌}
use onionmsg.Ed25519.{Scheme}
use onionmsg.Identity.{Identity, remote, new_identity}
use onionmsg.Peer.{Context, absent, active, cancelled, Peer}
use onionmsg.Peer
use onionmsg.Room.{Room, stop_queues}
use onionmsg.Tor.{Controller}
use onionmsg.Daemon.InStep.{InStep, RoomOk, service_of}
use onionmsg.Daemon.InStep.Kin.{Kin, Kin-refl, AllMeta}
use onionmsg.Daemon.InStep.Operations.{Kin-RoomOk, Kin-service_of}
use onionmsg.Daemon.InStep.Made.{MakesPeers}
use onionmsg.Console.{
  Said, Console, Fresh, say, read_line, trimmed, told, or_tell, read_contacts, stop_each,
}

stop-AllMeta : (ps : List Peer) → AllMeta ps → AllMeta (map Peer.stop ps)
unfolding Peer.stop
stop-AllMeta [] h = tt
stop-AllMeta (p ∷ ps) h = (h.0, stop-AllMeta ps h.1)

-- A stopped room is the same room.
stop_queues-Kin : (c : Scheme) (r t : Room) → RoomOk c r → stop_queues r ≡ ok t → Kin r t
unfolding stop_queues
stop_queues-Kin c r t fit h = go r.ctx refl
  where
    stopped : Kin r (record r { ctx = cancelled; peers = map Peer.stop r.peers })
    stopped = record {
      id = refl;
      keys = (refl, refl);
      ready = record {
        self_meta = fit.1.self_meta;
        peers_meta = stop-AllMeta r.peers fit.1.peers_meta;
        has_ctx = λ e. ground arith;
      };
    }

    go : (x : Context) → r.ctx ≡ x → Kin r t
    go absent e = absurd (fit.1.has_ctx e)
    go active e = rw (← ok-injective (rw e at h)) stopped
    go cancelled e = rw (← ok-injective (rw e at h)) stopped

-- What a turn takes from elsewhere is sound: a generated key, and dialling that makes peers.
pub record IsSound (c : Scheme) (fresh : Fresh) : Type 0 where
  pub generated : c.is_key fresh.key ≡ true
  pub makes : MakesPeers fresh.make

module _ (c : Scheme) (ctrl : Controller) where
  stop_if-Kin :
      (b : Bool) (r t : Room) → RoomOk c r → (if b then stop_queues r else ok r) ≡ ok t → Kin r t
  stop_if-Kin true r t fit h = stop_queues-Kin c r t fit h
  stop_if-Kin false r t fit h = rw (← ok-injective h) (Kin-refl r fit.1)

  pub stop_each-Kin :
      (p : Room → Bool) (rs ss : List Room)
      → All (RoomOk c) rs
      → stop_each p rs ≡ ok ss
      → All (RoomOk c) ss
        × (map (λ r. service_of ctrl r.self) ss ≡ map (λ r. service_of ctrl r.self) rs)
  unfolding stop_each
  stop_each-Kin p [] ss fit h = rw (← ok-injective h) (tt, refl)
  stop_each-Kin p (r ∷ rs) ss fit h =
      let (s, hs, rest) = >>=-eq-ok (if p r then stop_queues r else ok r) _ h in
      let (ts, hts, e) = >>=-eq-ok (stop_each p rs) _ rest in
      let kin = stop_if-Kin (p r) r s fit.0 hs in
      let (others, same) = stop_each-Kin p rs ts fit.1 hts in
      rw (← ok-injective e)
        ((Kin-RoomOk c kin fit.0, others), rw (same, Kin-service_of c ctrl r s kin) refl)

  -- A part of a turn that keeps the daemon in step.
  abbrev pub Steady : {A : Type 0} → Exec Console A → Type 0
  Steady m = (s : Console) → InStep c ctrl s.process.daemon → InStep c ctrl (m s).1.process.daemon

  pub then-Steady :
      {A B : Type 0} (m : Exec Console A) (k : A → Exec Console B)
      → Steady m
      → ((a : A) → Steady (k a))
      → Steady (m >>= k)
  then-Steady {A} {B} m k first rest s h = go (m s).0 (m s).1 (first s h)
    where
      go :
          (o : Outcome A) (t : Console)
          → InStep c ctrl t.process.daemon
          → InStep c ctrl (resume o k t).1.process.daemon
      go (ok a) t h = rest a t h
      go (err e) t h = h
      go panic t h = h

  pub or_tell-Steady :
      {A : Type 0} (f : Error → Said) (m : Exec Console A) (k : A → Exec Console (Unit {0}))
      → Steady m
      → ((a : A) → Steady (k a))
      → Steady (or_tell f m k)
  unfolding say
  or_tell-Steady {A} f m k first rest s h = go (m s).0 (m s).1 (first s h)
    where
      go :
          (o : Outcome A) (t : Console)
          → InStep c ctrl t.process.daemon
          → InStep c ctrl (told f o k t).1.process.daemon
      go (ok a) t h = rest a t h
      go (err e) t h = h
      go panic t h = h

  pub say-Steady : (lines : List Said) → Steady (say lines)
  unfolding say
  say-Steady lines s h = h

  pub read_line-Steady : Steady read_line
  unfolding read_line
  read_line-Steady s h = go s.lines refl
    where
      go : (ls : List Bytes) → s.lines ≡ ls → InStep c ctrl (read_line s).1.process.daemon
      go [] e = rw (e, read_line) h
      go (l ∷ ls) e = rw (e, read_line) h

  pub read_contacts-Steady :
      (lines : List Bytes) (ids : List Identity) → Steady (read_contacts lines ids)
  unfolding read_contacts
  read_contacts-Steady [] ids s h = h
  read_contacts-Steady (line ∷ lines) ids s h = elim (Bool-cases (same (trimmed line) [])) [
    | inl blank ↦ rw (blank, read_contacts) h
    | inr typed ↦ elim (Outcome-cases (new_identity remote [] (trimmed line))) [
      | inl (i, e) ↦
          rw (typed, read_contacts)
            (rw (e, read_contacts)
              (read_contacts-Steady lines (ids ++ (i ∷ [])) (record s { lines = lines }) h))
      | inr (inl (f, e)) ↦
          rw (typed, read_contacts)
            (rw (e, read_contacts)
              (read_contacts-Steady lines ids
                (record s { lines = lines; said = s.said ++ (Said.failure f ∷ []) }) h))
      | inr (inr e) ↦ rw (typed, read_contacts) (rw (e, read_contacts) h)
    ]
  ]
