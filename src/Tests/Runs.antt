-- ===== src/Tests/Runs.antt =====
-- A start of the daemon on a small data file.
use onionmsg.Base.{
  ◌<◌, ◌≡◌, ◌≢◌, ◌⊎◌, refl, true, false, [], ◌∷◌, map, some, Outcome, ok, err, tor_error, arith,
  All,
}
use onionmsg.Daemon.Requests.{with_context}
use onionmsg.Lifecycle.{
  locked, holds, Storage, Process, load_data, exit_daemon, save_data, save_data_compressed,
  write_data, interrupted,
}
use onionmsg.Lifecycle.Safety.{HasContext, interrupted-keeps_file, load_data-exit_daemon}
use onionmsg.Tests.Data.{daemon, uncompressed, willing_tor, ports}

-- Whatever is stored reads as the daemon of the tests.
abbrev pub storage : Storage
storage = record {
  zstd = uncompressed;
  marshal = λ d. some (1 ∷ 2 ∷ []);
  unmarshal = λ raw d. daemon;
  salvaged = λ comp. [];
}

abbrev before : Process
before = record {
  tor_running = false;
  load_fuse = false;
  listening = false;
  auto_accept_requests = false;
  daemon = record daemon { rooms = [] };
  file = holds (7 ∷ []);
}

abbrev works : Outcome (Unit {0})
works = ok tt

abbrev refuses : Outcome (Unit {0})
refuses = err tor_error

interrupted-keeps_file_example :
    ((interrupted storage willing_tor ports works refuses false 5 before).file ≡ before.file)
    ⊎ ((2 < 5) × (works ≡ works) × (refuses ≡ works) × (before.file ≢ locked))
interrupted-keeps_file_example =
    interrupted-keeps_file storage willing_tor ports false works refuses 5 before refl

abbrev running : Process
running = record before { load_fuse = true; tor_running = true }

load_data-exit_daemon_example :
    (t : Process) × (load_data storage (record before { file = holds (1 ∷ 2 ∷ []) }) ≡ (ok tt, t))
    × (t.daemon ≡ record daemon { rooms = map with_context daemon.rooms })
    × All (HasContext storage) t.daemon.rooms
    × (t.load_fuse ≡ true)
    × (t.file ≡ holds (1 ∷ 2 ∷ []))
unfolding exit_daemon save_data save_data_compressed write_data
load_data-exit_daemon_example =
    load_data-exit_daemon storage running (record before { file = holds (1 ∷ 2 ∷ []) }) (1 ∷ 2 ∷ [])
      daemon refl (λ e. ground arith) refl refl refl
