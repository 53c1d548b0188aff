-- ===== src/Lifecycle/Startup.antt =====
-- How the parts are started: `startTor`, `getTorInfo` and the writer of its output in
-- internal/daemon/daemon.go and util.go, the flags of cmd/onionmsgd/main.go, and the listener of the
-- API in internal/api/api.go.
use onionmsg.Base.{
  ℕ, zero, suc, ◌+◌, Bool, true, false, not, if◌then◌else◌, List, [], ◌∷◌, ◌++◌, Option, none, some,
  Bytes, codes, split, length, Outcome, ok, err, panic, Error,
}
use onionmsg.Base
use onionmsg.Exec.{Exec}
use onionmsg.Tor.Instance.{Conf, Machine, Host, Instance, new_instance, stop, version}
use onionmsg.Sockets.{Sockets, Machinery, Listener, create_unix_socket, create_tcp_socket}
use onionmsg.Lifecycle.{Params}

-- `daemon.Config`
pub record Config : Type 0 where
  pub base_dir : Bytes
  pub tor_binary : Bytes
  pub port_offset : ℕ
  pub use_control_pass : Bool
  pub auto_accept : Bool
  pub interactive : Bool

-- The variables of the command line.
pub record Flags : Type 0 where
  pub interactive : Bool
  pub use_unix_socket : Bool
  pub base_dir : Bytes
  pub port_offset : ℕ
  pub no_control_pass : Bool
  pub auto_accept : Bool
  pub debug : Bool
  pub trace : Bool
  pub tor_binary : Bytes

abbrev pub default_flags : Flags
default_flags = record {
  interactive = false;
  use_unix_socket = false;
  base_dir = codes "alliumd";
  port_offset = 0;
  no_control_pass = false;
  auto_accept = false;
  debug = false;
  trace = false;
  tor_binary = [];
}

unfoldable pub config_of : Flags → Config
config_of f = record {
  interactive = f.interactive;
  base_dir = f.base_dir;
  port_offset = f.port_offset;
  use_control_pass = not f.no_control_pass;
  auto_accept = f.auto_accept;
  tor_binary = f.tor_binary;
}

pub data Level : Type 0 where
  info_level debug_level trace_level : Level

-- The later `SetLevel` wins.
unfoldable pub level_of : Flags → Level
level_of f = if f.trace then trace_level else if f.debug then debug_level else info_level

-- The variables of internal/daemon/daemon.go before `parseParams`.
abbrev pub default_params : Params
default_params = record {
  socks_port = 10048;
  control_port = 10049;
  lo_cont_port = 10050;
  lo_conv_port = 10051;
  torrc = codes "torrc";
  tordir = codes "cache/tor";
  blobdir = codes "blobs";
  datafile = codes "alliumd.zstd";
}

-- The lines of one write, without what follows the last line break.
but_last : List Bytes → List Bytes
but_last [] = []
but_last (l ∷ []) = []
but_last (l ∷ m ∷ ls) = l ∷ but_last (m ∷ ls)

-- `StringWriter.Write`: what it returns, and the calls of `OnWrite`, if it is set.
unfoldable pub write : Bool → Bytes → ℕ × List Bytes
unfolding but_last
write true p = (length p, but_last (split 10 p))
write false p = (length p, [])

abbrev pub tor_conf : Params → Bool → Bytes → Conf
tor_conf p use_control_pass binary_path = record {
  socks_port = p.socks_port;
  control_port = p.control_port;
  data_dir = p.tordir;
  torrc = p.torrc;
  control_pass = use_control_pass;
  binary = binary_path;
}

-- The two variables that a start of Tor sets: `torInstance`, a nil pointer after an error, and
-- `connection.DataConnProxy`.
pub record TorState : Type 0 where
  pub machine : Machine
  pub instance : Option Instance
  pub proxy : Option Bytes

module _ (h : Host) where
  set_tor : TorState → Outcome Instance × Machine → Outcome (Unit {0}) × TorState
  set_tor s (ok i, m) = (ok tt, record { machine = m; instance = some i; proxy = some i.proxy })
  set_tor s (err e, m) = (panic, record s { machine = m; instance = none })
  set_tor s (panic, m) = (panic, record s { machine = m })

  unfoldable pub start_tor : Bytes → Params → Bool → Bytes → Exec TorState (Unit {0})
  unfolding set_tor
  start_tor random p use_control_pass binary_path s =
      set_tor s (new_instance h random (tor_conf p use_control_pass binary_path) s.machine)

  -- `if torInstance != nil { torInstance.Stop() }`
  unfoldable pub stop_tor : TorState → TorState
  stop_tor s = elim s.instance [ none ↦ s | some i ↦ record s { machine = stop i s.machine } ]

  pub record TorInfo : Type 0 where
    pub log : Bytes
    pub version : Bytes
    pub pid : ℕ
    pub path : Bytes

  -- `log` is what the process has written so far.
  unfoldable pub get_tor_info : Bytes → TorState → Outcome TorInfo
  get_tor_info log s = elim s.instance [
    | none ↦ panic
    | some i ↦
        Base.◌>>=◌ (version h i)
          λ v. ok (record { log = log; version = v; pid = i.pid; path = i.binary_path })
  ]

abbrev pub unix_socket_name : Bytes
unix_socket_name = codes "onionmsg.sock"

abbrev pub api_port : ℕ
api_port = 10052

-- The start of `Start`: an error of the listener panics.
unfoldable pub open_api : Machinery → Bool → ℕ → Exec Sockets Listener
open_api n unix_socket port_offset s =
    let (o, t) =
      (if unix_socket
          then create_unix_socket n unix_socket_name
          else create_tcp_socket n (api_port + port_offset))
        s in
    (elim o [ ok l ↦ ok l | err e ↦ panic | panic ↦ panic ], t)
