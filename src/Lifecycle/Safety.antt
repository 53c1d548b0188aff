-- ===== src/Lifecycle/Safety.antt =====
-- What the start and the end of the daemon, internal/daemon/daemon.go, do to its data file.
use onionmsg.Base.{
  ℕ, zero, suc, ◌<◌, ◌≡◌, ◌≢◌, ◌⊎◌, inl, inr, refl, ap, sym, ◌∙◌, Bool, true, false, List, [], ◌∷◌,
  map, some, Bytes, Outcome, ok, err, panic, All, arith,
}
use onionmsg.Exec.{Exec, ◌>>◌}
use onionmsg.Peer.{Context, absent, active, cancelled}
use onionmsg.Room.{Room, set_context}
use onionmsg.Tor.{Controller}
use onionmsg.Daemon.State.{Daemon}
use onionmsg.Daemon.Services.{Ports}
use onionmsg.Daemon.Requests.{with_context}
use onionmsg.Lifecycle.{
  File, missing, locked, holds, Storage, Process, loaded, unfuse, with_contexts, write_data, raw_of,
  save_data_compressed, load_compressed_data, load_data, save_data, exit_daemon, start_steps,
  run_steps, interrupted,
}

module _ (g : Storage) where
  exit-unfused : (p : Process) → p.load_fuse ≡ false → (exit_daemon g p).file ≡ p.file
  unfolding exit_daemon
  exit-unfused p e = rw e refl

  -- A file that cannot be read stops the start.
  load_data-locked :
      (p : Process) (rest : Exec Process (Unit {0}))
      → p.file ≡ locked
      → ((load_data g >> rest) p).1 ≡ p
  unfolding load_data load_compressed_data loaded unfuse
  load_data-locked p rest e = rw e refl

  module _ (ctrl : Controller) (ports : Ports) (auto_accept : Bool) where
    -- The data file is safe. However far the start of a process that has loaded nothing gets before a
    -- signal or a panic ends it, the file is afterwards what it was, unless the directory of blobs was
    -- made, Tor was started, the third of the calls was reached, and the file is not locked.
    pub interrupted-keeps_file :
        (blob_dir tor : Outcome (Unit {0})) (n : ℕ) (p : Process)
        → p.load_fuse ≡ false
        → ((interrupted g ctrl ports blob_dir tor auto_accept n p).file ≡ p.file)
          ⊎ ((2 < n) × (blob_dir ≡ ok tt) × (tor ≡ ok tt) × (p.file ≢ locked))
    unfolding interrupted start_steps run_steps
    interrupted-keeps_file blob_dir tor zero p e = inl (exit-unfused p e)
    interrupted-keeps_file (err f) tor (suc n) p e = inl (exit-unfused p e)
    interrupted-keeps_file panic tor (suc n) p e = inl (exit-unfused p e)
    interrupted-keeps_file (ok u) tor (suc zero) p e = inl (exit-unfused p e)
    interrupted-keeps_file (ok u) (err f) (suc (suc n)) p e = inl (exit-unfused p e)
    interrupted-keeps_file (ok u) panic (suc (suc n)) p e = inl (exit-unfused p e)
    interrupted-keeps_file (ok u) (ok v) (suc (suc zero)) p e =
        inl (exit-unfused (record p { tor_running = true }) e)
    interrupted-keeps_file (ok u) (ok v) (suc (suc (suc n))) p e = go p.file refl
      where
        go :
            (f : File)
            → p.file ≡ f
            → ((interrupted g ctrl ports (ok u) (ok v) auto_accept (suc (suc (suc n))) p).file
                ≡ p.file)
              ⊎ ((2 < suc (suc (suc n)))
                  × (Outcome.ok u ≡ ok tt)
                  × (Outcome.ok v ≡ ok tt)
                  × (p.file ≢ locked))
        go locked h = inl (
            ap (λ q. (exit_daemon g q).file)
              (load_data-locked (record p { tor_running = true }) _ h)
            ∙ exit-unfused (record p { tor_running = true }) e)
        go missing h = inr (omega arith, refl, refl, λ l. different (sym h ∙ l))
          where
            different : missing ≢ locked
            different = λ x. ground arith
        go (holds b) h = inr (omega arith, refl, refl, λ l. different (sym h ∙ l))
          where
            different : holds b ≢ locked
            different = λ x. ground arith

  abbrev pub HasContext : Room → Type 0
  HasContext r = r.ctx ≢ absent

  with_context-HasContext : (r : Room) → HasContext (with_context r)
  unfolding with_context set_context
  with_context-HasContext r = go r.ctx refl
    where
      go : (c : Context) → r.ctx ≡ c → (with_context r).ctx ≢ absent
      go absent e = rw e (λ x. ground arith)
      go active e = rw e (λ x. let y : active ≡ absent = x in ground arith)
      go cancelled e = rw e (λ x. let y : cancelled ≡ absent = x in ground arith)

  rooms-HasContext : (rs : List Room) → All HasContext (map with_context rs)
  rooms-HasContext [] = tt
  rooms-HasContext (r ∷ rs) = (with_context-HasContext r, rooms-HasContext rs)

  exit_daemon-writes :
      (p : Process) (raw : Bytes)
      → p.load_fuse ≡ true
      → p.file ≢ locked
      → g.marshal p.daemon ≡ some raw
      → (exit_daemon g p).file ≡ holds (g.zstd.encode_all raw)
  unfolding exit_daemon save_data save_data_compressed write_data
  exit_daemon-writes p raw fused unlocked encoded = go p.file refl
    where
      go : (f : File) → p.file ≡ f → (exit_daemon g p).file ≡ holds (g.zstd.encode_all raw)
      go locked e = absurd (unlocked e)
      go missing e = rw (fused, e, encoded) refl
      go (holds b) e = rw (fused, e, encoded) refl

  -- A restart finds what was saved. Suppose that a process that had loaded its data ends, that its
  -- state is encoded, that its file was not locked, and that the decoding of what was encoded, into
  -- the state of a new process, gives some state. Then the new process, on the file that is left,
  -- loads that state without an error, with a context for every room, and will save at its own end.
  pub load_data-exit_daemon :
      (p q : Process) (raw : Bytes) (stored : Daemon)
      → p.load_fuse ≡ true
      → p.file ≢ locked
      → g.marshal p.daemon ≡ some raw
      → q.file ≡ (exit_daemon g p).file
      → g.unmarshal raw q.daemon ≡ stored
      → (t : Process) × (load_data g q ≡ (ok tt, t))
        × (t.daemon ≡ record stored { rooms = map with_context stored.rooms })
        × All HasContext t.daemon.rooms
        × (t.load_fuse ≡ true)
        × (t.file ≡ q.file)
  unfolding load_data loaded unfuse load_compressed_data with_contexts raw_of
  load_data-exit_daemon p q raw stored fused unlocked encoded left decoded =
      let saved : q.file ≡ holds (g.zstd.encode_all raw) =
        left ∙ exit_daemon-writes p raw fused unlocked encoded in
      let back : g.zstd.decode_all (g.zstd.encode_all raw) ≡ some raw = g.zstd.decode_encode raw in
      (
        record q {
          daemon = record stored { rooms = map with_context stored.rooms };
          load_fuse = true;
        },
        ap (λ f. unfuse q (loaded q.daemon (load_compressed_data g f q.daemon))) saved
            ∙ rw (back, decoded) refl,
        refl,
        rooms-HasContext stored.rooms,
        refl,
        refl,
      )
