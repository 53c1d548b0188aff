-- ===== src/Tor/Instance.antt =====
-- The Tor process of pkg/tor/tor_instance.go, util.go and external_binary.go: how it is started, how
-- its controller is reached, and how it is stopped.
use onionmsg.Base.{
  ℕ, zero, suc, ◌+◌, ◌/◌, ◌%◌, ◌==◌, ltb, Bool, true, false, not, if◌then◌else◌, List, [], ◌∷◌,
  ◌++◌, map, keep, Option, none, some, Bytes, codes, same, Outcome, ok, err, panic,
}
use onionmsg.Base
use onionmsg.Exec.{Exec, lift, modify, ◌>>=◌, ◌>>◌}
use onionmsg.Base64.{encode}
use onionmsg.Tor.Binary.{check_tor_v3_support, pw_hash_from_binary}

-- Whether the two writers are set does not matter here.
pub record Conf : Type 0 where
  pub socks_port : ℕ
  pub control_port : ℕ
  pub data_dir : Bytes
  pub binary : Bytes
  pub torrc : Bytes
  pub control_pass : Bool

abbrev pub default_conf : Conf
default_conf = record {
  socks_port = 9050;
  control_port = 9051;
  data_dir = codes "tor";
  torrc = codes "torrc";
  control_pass = true;
  binary = codes "tor";
}

-- A process that runs, and what the program changes on its machine.
pub record Running : Type 0 where
  pub pid : ℕ
  pub path : Bytes
  pub args : List Bytes

pub record Machine : Type 0 where
  pub dirs : List Bytes
  pub processes : List Running

-- What the machine and `torgo` answer: the output of a binary, the two path functions, whose errors
-- are dropped, the making of a directory, the id of a process that is started, and the controller of
-- `torgo` at each attempt. The attempt `deadline` is the first that ends after the timeout.
pub record Host : Type 0 where
  pub exec : Bytes → List Bytes → Outcome Bytes
  pub look_path : Bytes → Bytes
  pub abs : Bytes → Bytes
  pub mkdir_all : Bytes → Outcome (Unit {0})
  pub start : Bytes → List Bytes → Outcome ℕ
  pub new_controller : Bytes → ℕ → Outcome (Unit {0})
  pub deadline : ℕ
  pub authenticate_none : Outcome (Unit {0})
  pub authenticate_password : Bytes → Outcome (Unit {0})
  pub get_version : Outcome Bytes

pub record Instance : Type 0 where
  pub conf : Conf
  pub proxy : Bytes
  pub control_pw : Bytes
  pub binary_path : Bytes
  pub pid : ℕ

-- `strconv.Itoa`, with as much fuel as there can be digits.
digits : ℕ → ℕ → Bytes
digits zero n = []
digits (suc f) n =
    let rest = digits f (n / 10) ++ ((b'0' + n % 10) ∷ []) in
    if ltb n 10 then (b'0' + n) ∷ [] else rest

unfoldable pub itoa : ℕ → Bytes
unfolding digits
itoa n = digits (suc n) n

-- `base64.RawStdEncoding`, which has two characters other than the encoding for URLs.
std_char : ℕ → ℕ
std_char c = if c == b'-' then b'+' else if c == b'_' then b'/' else c

-- `random` is what `rand.Read` fills in.
unfoldable pub prng_string : Bytes → Bytes
unfolding std_char
prng_string random = map std_char (encode random)

unfoldable pub tor_binary_path : Outcome Bytes
tor_binary_path = ok (codes "tor")

abbrev pub is_empty : Bytes → Bool
is_empty s = same s []

unfoldable pub binary_of : Conf → Outcome Bytes
unfolding tor_binary_path
binary_of conf = if is_empty conf.binary then tor_binary_path else ok conf.binary

abbrev pub local_address : ℕ → Bytes
local_address port = codes "127.0.0.1:" ++ itoa port

abbrev pub base_args : Conf → List Bytes
base_args conf =
    codes "-f"
    ∷ conf.torrc
    ∷ codes "--ignore-missing-torrc"
    ∷ codes "SocksPort"
    ∷ itoa conf.socks_port
    ∷ codes "ControlPort"
    ∷ itoa conf.control_port
    ∷ codes "DataDirectory"
    ∷ conf.data_dir
    ∷ []

-- The loop of `connectController`, from the attempt `n` with `left` more before the timeout.
unfoldable pub dial : (ℕ → Outcome (Unit {0})) → ℕ → ℕ → Outcome (Unit {0})
dial connect zero n = connect n
dial connect (suc left) n = elim (connect n) [
  | ok u ↦ ok u
  | err e ↦ dial connect left (suc n)
  | panic ↦ panic
]

module _ (h : Host) where
  unfoldable pub password_args : Bytes → Bytes → Outcome (List Bytes)
  password_args path pw =
      if is_empty pw
      then ok []
      else Base.◌>>=◌ (pw_hash_from_binary (h.exec path) pw)
          λ hash. ok (codes "HashedControlPassword" ∷ hash ∷ [])

  unfoldable pub authenticate : Bytes → Outcome (Unit {0})
  authenticate pw = if is_empty pw then h.authenticate_none else h.authenticate_password pw

  -- The environment is passed on, and the output is copied to a buffer and to the two writers.
  unfoldable pub run_executable : Bytes → List Bytes → Exec Machine ℕ
  run_executable path args = do
    pid ← lift (h.start path args)
    modify (λ m. record m {
      processes = m.processes ++ (record { pid = pid; path = path; args = args } ∷ []);
    })
    lift (ok pid)

  unfoldable pub run_binary : Conf → Bytes → Bytes → Exec Machine ℕ
  unfolding run_executable
  run_binary conf path pw = do
    lift (h.mkdir_all conf.data_dir)
    modify (λ m. record m { dirs = m.dirs ++ (conf.data_dir ∷ []) })
    extra ← lift (password_args path pw)
    run_executable path (base_args conf ++ extra)

  unfoldable pub connect_controller : Conf → Bytes → Outcome (Unit {0})
  connect_controller conf pw =
      Base.◌>>=◌ (dial (h.new_controller (local_address conf.control_port)) h.deadline 0)
        λ u. authenticate pw

  abbrev pub path_of : Bytes → Bytes
  path_of binary = h.abs (h.look_path binary)

  abbrev pub password_of : Bytes → Conf → Bytes
  password_of random conf = if conf.control_pass then prng_string random else []

  -- `random` has 64 bytes.
  unfoldable pub new_instance : Bytes → Conf → Exec Machine Instance
  new_instance random conf = do
    binary ← lift (binary_of conf)
    lift (check_tor_v3_support (h.exec binary))
    pid ← run_binary conf (path_of binary) (password_of random conf)
    lift (connect_controller conf (password_of random conf))
    lift (
        ok (record {
          conf = conf;
          proxy = local_address conf.socks_port;
          control_pw = password_of random conf;
          binary_path = path_of binary;
          pid = pid;
        }))

  abbrev pub or_error : Outcome Bytes → Outcome Bytes
  or_error (ok v) = ok v
  or_error (err e) = ok (codes "error")
  or_error panic = panic

  unfoldable pub version : Instance → Outcome Bytes
  version i = or_error h.get_version

-- `Stop` cancels the context of the process, which ends it.
abbrev pub other_process : ℕ → Running → Bool
other_process pid r = not (r.pid == pid)

unfoldable pub stop : Instance → Machine → Machine
stop i m = record m { processes = keep (other_process i.pid) m.processes }
