-- ===== src/Tests/Machines.antt =====
-- A machine with a Tor binary, and controllers that answer late or never.
use onionmsg.Base.{
  ℕ, ◌≡◌, refl, false, List, [], ◌∷◌, ◌++◌, Bytes, codes, trim, same, split, Outcome, ok, err,
  panic, none, tor_error, less, tor_too_old, if◌then◌else◌, leb, arith,
}
use onionmsg.Base64.{encode, char_of}
use onionmsg.Tor.Binary.{
  newline, check_tor_v3_support, version_from_binary, get_execution_output, first_of, behind_title,
  judged, pw_hash_from_binary,
}
use onionmsg.Tor.Versions.{no_note, first_line, digit, dotted, check_tor_v3_support-fields}
use onionmsg.Tor.Instance.{
  tor_binary_path, itoa, prng_string, local_address, Conf, default_conf, Machine, Host, Instance,
  binary_of, base_args, run_binary, connect_controller, password_args, authenticate, dial,
  new_instance,
}
use onionmsg.Tor.Launch.{Launched, new_instance-Launched}
use onionmsg.Lifecycle.{Params}
use onionmsg.Lifecycle.Startup.{default_params, TorState, start_tor, stop_tor}
use onionmsg.Lifecycle.Shutdown.{start_tor-left_running}

abbrev output : Bytes
output = first_line (dotted (digit 0) (digit 4) (digit 7) (digit 8)) [] ++ (newline ∷ [])

check_tor_v3_support-fields_example : check_tor_v3_support (λ args. ok output) ≡ (
    if less (0 ∷ 4 ∷ 7 ∷ 8 ∷ []) (0 ∷ 3 ∷ 3 ∷ 6 ∷ [])
    then err (tor_too_old (dotted (digit 0) (digit 4) (digit 7) (digit 8)))
    else ok tt)
check_tor_v3_support-fields_example =
    check_tor_v3_support-fields (λ args. ok output) [] [] no_note 0 4 7 8 (omega arith)
      (omega arith) (omega arith) (omega arith) refl

abbrev no_password : Conf
no_password = record default_conf { control_pass = false }

-- The controller answers at the third attempt, or never.
abbrev late : ℕ → Outcome (Unit {0})
late n = if leb 2 n then ok tt else err tor_error

abbrev host : Host
host = record {
  exec = λ path args. ok output;
  look_path = λ s. s;
  abs = λ s. codes "/usr/bin/" ++ s;
  mkdir_all = λ dir. ok tt;
  start = λ path args. ok 77;
  new_controller = λ address n. late n;
  deadline = 9;
  authenticate_none = ok tt;
  authenticate_password = λ pw. ok tt;
  get_version = ok (codes "0.4.7.8");
}

abbrev deaf : Host
deaf = record host { new_controller = λ address n. err tor_error }

abbrev machine : Machine
machine = record { dirs = []; processes = record { pid = 5; path = codes "sh"; args = [] } ∷ [] }

abbrev tor_path : Bytes
tor_path = codes "/usr/bin/tor"

-- A binary that answers with its version, or with the hash of a password.
abbrev tor_says : List Bytes → Bytes
tor_says (flag ∷ pw ∷ rest) = codes "16:" ++ (pw ++ (newline ∷ []))
tor_says _ = output

abbrev asking_host : Host
asking_host = record host {
  exec = λ path args. ok (tor_says args);
  authenticate_none = err tor_error;
  authenticate_password = λ pw. if same pw (codes "AAAA") then ok tt else err tor_error;
}

abbrev running : Machine
running = record {
  dirs = codes "tor" ∷ [];
  processes =
      machine.processes
      ++ (record {
        pid = 77;
        path = tor_path;
        args = base_args default_conf ++ (codes "HashedControlPassword" ∷ codes "16:AAAA" ∷ []);
      }
          ∷ []);
}

abbrev instance_of_tor : Instance
instance_of_tor = record {
  conf = default_conf;
  proxy = local_address 9050;
  control_pw = codes "AAAA";
  binary_path = tor_path;
  pid = 77;
}

new_instance-Launched_example :
    Launched asking_host (0 ∷ 0 ∷ 0 ∷ []) default_conf machine running instance_of_tor
unfolding new_instance check_tor_v3_support version_from_binary get_execution_output first_of
    behind_title judged binary_of run_binary connect_controller dial authenticate password_args trim
    same split less itoa prng_string encode char_of pw_hash_from_binary
new_instance-Launched_example =
    new_instance-Launched asking_host (0 ∷ 0 ∷ 0 ∷ []) default_conf machine instance_of_tor running
      refl

abbrev without_hash : Machine
without_hash = record {
  dirs = codes "tor" ∷ [];
  processes =
      machine.processes
      ++ (record { pid = 77; path = tor_path; args = base_args no_password ++ [] } ∷ []);
}

abbrev params : Params
params = record default_params {
  tordir = codes "tor";
  torrc = codes "torrc";
  socks_port = 9050;
  control_port = 9051;
}

abbrev idle : TorState
idle = record { machine = machine; instance = none; proxy = none }

start_tor-left_running_example :
    (t : TorState) × (start_tor deaf [] params false [] idle ≡ (panic, t))
    × (stop_tor deaf t ≡ t)
    × ((args : List Bytes) × (t.machine.processes
          ≡ machine.processes ++ (record { pid = 77; path = tor_path; args = args } ∷ [])))
unfolding check_tor_v3_support version_from_binary binary_of run_binary connect_controller dial
    password_args judged get_execution_output first_of behind_title trim same split less itoa
    tor_binary_path
start_tor-left_running_example =
    start_tor-left_running deaf [] params false [] idle (codes "tor") 77 without_hash tor_error refl
      refl refl refl
