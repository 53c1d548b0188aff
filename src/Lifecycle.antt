-- ===== src/Lifecycle.antt =====
-- The start and the end of the daemon: internal/daemon/daemon.go, with the data file of
-- pkg/sio/file.go. The Tor process, the handlers of connections and the console start elsewhere.
pub mod Safety
pub mod Steadiness
pub mod Startup
pub mod Shutdown
use onionmsg.Base.{
  ℕ, ◌+◌, Bool, true, false, if◌then◌else◌, List, [], ◌∷◌, map, take, Option, none, some, Bytes,
  Outcome, Error, ok, err, panic, file_missing, file_error, malformed_json,
}
use onionmsg.Exec.{Exec, done, raise, lift, ask, modify, ◌>>=◌, ◌>>◌}
use onionmsg.Conn.{Zstd}
use onionmsg.Room.{Room}
use onionmsg.Tor.{Controller}
use onionmsg.Daemon.State.{Daemon}
use onionmsg.Daemon.Services.{Ports}
use onionmsg.Daemon.Requests.{with_context}
use onionmsg.Daemon.Rooms.{init_rooms, init_cont_id_services}

-- The data file: not there, there but not to be read or written, or what it holds.
pub data File : Type 0 where
  missing locked : File
  holds : Bytes → File

-- `encoding/json` on the stored part of the state: `unmarshal raw d` is what `d` is after the call,
-- with an error or without. `salvaged` is what the decompression returns beside an error.
pub record Storage : Type 0 where
  pub zstd : Zstd
  pub marshal : Daemon → Option Bytes
  pub unmarshal : Bytes → Daemon → Daemon
  pub salvaged : Bytes → Bytes

pub record Process : Type 0 where
  pub tor_running : Bool
  pub load_fuse : Bool
  pub listening : Bool
  pub auto_accept_requests : Bool
  pub daemon : Daemon
  pub file : File

-- The ports and files, moved by `parseParams`; `join` is `filepath.Join`.
pub record Params : Type 0 where
  pub socks_port : ℕ
  pub control_port : ℕ
  pub lo_cont_port : ℕ
  pub lo_conv_port : ℕ
  pub torrc : Bytes
  pub tordir : Bytes
  pub blobdir : Bytes
  pub datafile : Bytes

unfoldable pub parse_params : (Bytes → Bytes → Bytes) → Bytes → ℕ → Params → Params
parse_params join base_dir port_offset p = record {
  socks_port = p.socks_port + port_offset;
  control_port = p.control_port + port_offset;
  lo_cont_port = p.lo_cont_port + port_offset;
  lo_conv_port = p.lo_conv_port + port_offset;
  torrc = join base_dir p.torrc;
  tordir = join base_dir p.tordir;
  blobdir = join base_dir p.blobdir;
  datafile = join base_dir p.datafile;
}

-- The file is cut to nothing before the data is marshalled.
unfoldable pub write_data : Storage → Option Bytes → Outcome (Unit {0}) × File
write_data g none = (err malformed_json, holds [])
write_data g (some raw) = (ok tt, holds (g.zstd.encode_all raw))

unfoldable pub save_data_compressed : Storage → Daemon → File → Outcome (Unit {0}) × File
unfolding write_data
save_data_compressed g d locked = (err file_error, locked)
save_data_compressed g d missing = write_data g (g.marshal d)
save_data_compressed g d (holds old) = write_data g (g.marshal d)

raw_of : Storage → Bytes → Option Bytes → Bytes
raw_of g comp none = g.salvaged comp
raw_of g comp (some raw) = raw

-- The errors of the decompression and of `Unmarshal` are dropped.
unfoldable pub load_compressed_data : Storage → File → Daemon → Outcome Daemon
unfolding raw_of
load_compressed_data g missing d = err file_missing
load_compressed_data g locked d = err file_error
load_compressed_data g (holds comp) d = ok (g.unmarshal (raw_of g comp (g.zstd.decode_all comp)) d)

-- `panic(err)` after an error.
abbrev pub or_panic : Outcome (Unit {0}) → Outcome (Unit {0})
or_panic (ok u) = ok u
or_panic (err e) = panic
or_panic panic = panic

-- An error other than that of a missing file panics.
unfoldable pub loaded : Daemon → Outcome Daemon → Outcome Daemon
loaded d (ok t) = ok t
loaded d (err file_missing) = ok d
loaded d (err e) = panic
loaded d panic = panic

unfoldable pub with_contexts : Daemon → Daemon
with_contexts d = record d { rooms = map with_context d.rooms }

unfuse : Process → Outcome Daemon → Outcome (Unit {0}) × Process
unfolding with_contexts
unfuse p (ok d) = (ok tt, record p { daemon = with_contexts d; load_fuse = true })
unfuse p (err e) = (err e, p)
unfuse p panic = (panic, p)

-- `made` is what `InitializeDir` returns for the directory of the blobs.
abbrev pub init_blob_manager : Outcome (Unit {0}) → Exec Process (Unit {0})
init_blob_manager made = lift (or_panic made)

-- The two servers listen; an error of one is logged.
abbrev pub start_connection_handlers : Bool → Exec Process (Unit {0})
start_connection_handlers auto_accept =
    modify (λ p. record p { listening = true; auto_accept_requests = auto_accept })

module _ (g : Storage) where
  unfoldable pub load_data : Exec Process (Unit {0})
  unfolding loaded unfuse
  load_data p = unfuse p (loaded p.daemon (load_compressed_data g p.file p.daemon))

  unfoldable pub save_data : Process → Process
  save_data p = let (o, t) = save_data_compressed g p.daemon p.file in record p { file = t }

  -- Up to `os.Exit`. An error of `saveData` is logged.
  unfoldable pub exit_daemon : Process → Process
  unfolding save_data
  exit_daemon p = let q = record p { tor_running = false } in if p.load_fuse then save_data q else q

  module _ (ctrl : Controller) (ports : Ports) where
    unfoldable pub init_hidden_services : Exec Process (Unit {0})
    init_hidden_services p =
        let (o, d) = (do init_cont_id_services ctrl ports; init_rooms ctrl ports) p.daemon in
        (or_panic o, record p { daemon = d })

    -- The functions that `StartDaemon` calls one after another, after `parseParams`. `blob_dir` and
    -- `tor` are what the making of the directory and the start of Tor return.
    unfoldable pub start_steps :
        (blob_dir tor : Outcome (Unit {0})) → Bool → List (Exec Process (Unit {0}))
    unfolding load_data init_hidden_services
    start_steps blob_dir tor auto_accept =
        init_blob_manager blob_dir
        ∷ (do lift (or_panic tor); modify (λ p. record p { tor_running = true }))
        ∷ load_data
        ∷ init_hidden_services
        ∷ start_connection_handlers auto_accept
        ∷ []

  unfoldable pub run_steps : List (Exec Process (Unit {0})) → Exec Process (Unit {0})
  run_steps [] = done
  run_steps (step ∷ steps) = do step; run_steps steps

  -- The deferred `recover`: a panic ends the daemon.
  ended : Outcome (Unit {0}) → Process → Outcome (Unit {0}) × Process
  ended (ok u) p = (ok u, p)
  ended (err e) p = (err e, p)
  ended panic p = (panic, exit_daemon p)

  unfoldable pub start_daemon :
      Controller → Ports → (blob_dir tor : Outcome (Unit {0})) → Bool → Exec Process (Unit {0})
  unfolding ended start_steps run_steps
  start_daemon ctrl ports blob_dir tor auto_accept p =
      let (o, t) = run_steps (start_steps ctrl ports blob_dir tor auto_accept) p in ended o t

  -- A signal that comes after `n` of the calls, or the end by a panic in one of them.
  unfoldable pub interrupted :
      Controller → Ports → (blob_dir tor : Outcome (Unit {0})) → Bool → ℕ → Process → Process
  unfolding start_steps run_steps
  interrupted ctrl ports blob_dir tor auto_accept n p =
      exit_daemon (run_steps (take n (start_steps ctrl ports blob_dir tor auto_accept)) p).1
