-- ===== src/Lifecycle/Steadiness.antt =====
-- A start that goes through leaves the daemon in step with its hidden services.
use onionmsg.Base.{Bool, true, ◌≡◌, refl, ap, Outcome, ok, err, panic, arith}
use onionmsg.Exec.{Exec, done, modify, ◌>>◌}
use onionmsg.Ed25519.{Scheme}
use onionmsg.Tor.{Controller}
use onionmsg.Daemon.State.{Daemon}
use onionmsg.Daemon.Services.{Ports}
use onionmsg.Daemon.Rooms.{init_rooms, init_cont_id_services}
use onionmsg.Daemon.InStep.{Laws, InStep, Stored}
use onionmsg.Daemon.InStep.Started.{init-InStep}
use onionmsg.Lifecycle.{
  Storage, Process, load_compressed_data, loaded, with_contexts, unfuse, load_data,
  init_hidden_services, start_steps, run_steps, ended, start_daemon, or_panic,
}

module _ (c : Scheme) (ctrl : Controller) (laws : Laws c ctrl) (ports : Ports) (g : Storage) where
  -- What the data file loads as: identities of this side, rooms and requests that are ready, and no
  -- service that runs.
  abbrev pub FileOk : Process → Type 0
  FileOk p =
      (d : Daemon)
      → loaded p.daemon (load_compressed_data g p.file p.daemon) ≡ ok d
      → Stored c (with_contexts d)

  initialised :
      (p q : Process)
      → Stored c p.daemon
      → init_hidden_services g ctrl ports p ≡ (ok tt, q)
      → InStep c ctrl q.daemon
  unfolding init_hidden_services
  initialised p q stored h =
      go ((do init_cont_id_services ctrl ports; init_rooms ctrl ports) p.daemon) refl h
    where
      go :
          (r : Outcome (Unit {0}) × Daemon)
          → (do init_cont_id_services ctrl ports; init_rooms ctrl ports) p.daemon ≡ r
          → ◌≡◌ {A = Outcome (Unit {0}) × Process}
              (or_panic r.0, record p { daemon = r.1 })
              (ok tt, q)
          → InStep c ctrl q.daemon
      go (ok u, d) e h =
          rw (← ap (λ (x : Outcome (Unit {0}) × Process). x.1.daemon) h)
            (init-InStep c ctrl laws ports p.daemon d stored e)
      go (err f, d) e h = absurd (ground arith)
      go (panic, d) e h = absurd (ground arith)

  -- The calls after the start of Tor.
  last_steps :
      (auto : Bool) (p q : Process)
      → FileOk p
      → (do
        load_data g
        init_hidden_services g ctrl ports
        modify (λ p. record p { listening = true; auto_accept_requests = auto })
        done)
          p
        ≡ (ok tt, q)
      → InStep c ctrl q.daemon
  unfolding load_data unfuse
  last_steps auto p q file h = go (loaded p.daemon (load_compressed_data g p.file p.daemon)) refl h
    where
      rest : Exec Process (Unit {0})
      rest = do
        init_hidden_services g ctrl ports
        modify (λ p. record p { listening = true; auto_accept_requests = auto })
        done

      at_end :
          (s : Process) (r : Outcome (Unit {0}) × Process)
          → Stored c s.daemon
          → init_hidden_services g ctrl ports s ≡ r
          → rest s ≡ (ok tt, q)
          → InStep c ctrl q.daemon
      at_end s (ok u, t) stored e h =
          let same : t.daemon ≡ q.daemon =
            ap (λ (x : Outcome (Unit {0}) × Process). x.1.daemon) (rw e at h) in
          rw (← same) (initialised s t stored e)
      at_end s (err f, t) stored e h = absurd (let h' = rw e at h in ground arith)
      at_end s (panic, t) stored e h = absurd (let h' = rw e at h in ground arith)

      go :
          (o : Outcome Daemon)
          → loaded p.daemon (load_compressed_data g p.file p.daemon) ≡ o
          → (do (λ x. unfuse p o); rest) p ≡ (ok tt, q)
          → InStep c ctrl q.daemon
      go (ok d) e h = at_end _ (init_hidden_services g ctrl ports _) (file d e) refl h
      go (err f) e h = absurd (ground arith)
      go panic e h = absurd (ground arith)

  ended-ok :
      (o : Outcome (Unit {0})) (t q : Process) → ended g o t ≡ (ok tt, q) → (o ≡ ok tt) × (t ≡ q)
  unfolding ended
  ended-ok (ok u) t q h = (refl, ap (λ (x : Outcome (Unit {0}) × Process). x.1) h)
  ended-ok (err f) t q h = absurd (ground arith)
  ended-ok panic t q h = absurd (ground arith)

  -- With a Tor that keeps its laws, and when what the data file loads as has identities with generated
  -- keys, rooms and requests that are ready and no services yet: after a start that goes through, the
  -- hidden services that run are, in some order, those of the contact identities and the rooms, and
  -- the identities and rooms are as sound as they were.
  pub start_daemon-InStep :
      (blob_dir tor : Outcome (Unit {0})) (auto : Bool) (p q : Process)
      → FileOk p
      → start_daemon g ctrl ports blob_dir tor auto p ≡ (ok tt, q)
      → InStep c ctrl q.daemon
  unfolding start_daemon start_steps run_steps
  start_daemon-InStep blob_dir tor auto p q file h = go blob_dir tor h
    where
      ran : Outcome (Unit {0}) → Outcome (Unit {0}) → Outcome (Unit {0}) × Process
      ran blob tor = run_steps g (start_steps g ctrl ports blob tor auto) p

      go :
          (blob tor : Outcome (Unit {0}))
          → ended g (ran blob tor).0 (ran blob tor).1 ≡ (ok tt, q)
          → InStep c ctrl q.daemon
      go (ok u) (ok v) h =
          let (went, same) = ended-ok (ran (ok u) (ok v)).0 (ran (ok u) (ok v)).1 q h in
          rw (← same) (
            last_steps auto (record p { tor_running = true }) (ran (ok u) (ok v)).1 file
              (ap (λ (o : Outcome (Unit {0})). (o, (ran (ok u) (ok v)).1)) went))
      go (ok u) (err f) h = absurd (let (went, same) = ended-ok panic p q h in ground arith)
      go (ok u) panic h = absurd (let (went, same) = ended-ok panic p q h in ground arith)
      go (err f) tor h = absurd (let (went, same) = ended-ok panic p q h in ground arith)
      go panic tor h = absurd (let (went, same) = ended-ok panic p q h in ground arith)
