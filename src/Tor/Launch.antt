-- ===== src/Tor/Launch.antt =====
-- What a start of Tor leaves behind, when it goes through and when its controller cannot be reached.
use onionmsg.Base.{
  ℕ, zero, suc, ◌+◌, ◌≤◌, ◌≡◌, ◌≢◌, refl, ap, sym, ◌∙◌, Outcome-cases, inl, inr, All, List, [], ◌∷◌,
  ◌++◌, keep, Bool-cases, same_iff, codes, if◌then◌else◌, Bytes, Error, Outcome, ok, err,
  ok-injective, >>=-eq-ok, arith,
}
use onionmsg.Exec.Returns.{>>=-returns, lift-returns}
use onionmsg.Tor.Binary.{check_tor_v3_support, pw_hash_from_binary}
use onionmsg.Tor.Instance.{
  Conf, Running, Machine, Host, Instance, binary_of, tor_binary_path, base_args, local_address,
  dial, password_args, authenticate, run_binary, connect_controller, itoa, is_empty, prng_string,
  path_of, password_of, new_instance, other_process, stop,
}

-- The attempts end with the first that succeeds, at the timeout or before.
dial-ok :
    (connect : ℕ → Outcome (Unit {0})) (left n : ℕ)
    → dial connect left n ≡ ok tt
    → (k : ℕ) × (k ≤ left) × (connect (n + k) ≡ ok tt)
unfolding dial
dial-ok connect zero n h = (0, omega arith, ap connect (omega arith) ∙ h)
dial-ok connect (suc left) n h = elim (Outcome-cases (connect n)) [
  | inl (u, e) ↦ (0, omega arith, ap connect (omega arith) ∙ e)
  | inr (inl (g, e)) ↦
      let (k, low, rest) = dial-ok connect left (suc n) (rw (e, dial) at h) in
      (suc k, omega arith, ap connect (omega arith) ∙ rest)
  | inr (inr e) ↦ absurd (let h' = rw (e, dial) at h in ground arith)
]

keep_others :
    (pid : ℕ) (rs : List Running) → All (λ r. r.pid ≢ pid) rs → keep (other_process pid) rs ≡ rs
keep_others pid [] h = refl
keep_others pid (r ∷ rs) h = ground (arith, keep_others pid rs h.1)

keep-last :
    (pid : ℕ) (r : Running) (rs : List Running)
    → r.pid ≡ pid
    → All (λ r. r.pid ≢ pid) rs
    → keep (other_process pid) (rs ++ (r ∷ [])) ≡ rs
keep-last pid r [] e h = ground arith
keep-last pid r (s ∷ rs) e h = ground (arith, keep-last pid r rs e h.1)

binary_of-lem :
    (conf : Conf) (binary : Bytes)
    → binary_of conf ≡ ok binary
    → binary ≡ (if is_empty conf.binary then codes "tor" else conf.binary)
unfolding binary_of tor_binary_path
binary_of-lem conf binary e = elim (Bool-cases (is_empty conf.binary)) [
  | inl empty ↦ rw empty (sym (ok-injective (rw empty at e)))
  | inr given ↦ rw given (sym (ok-injective (rw given at e)))
]

module _ (h : Host) where
  -- How the controller is protected, and what the process is told of it.
  pub data Secured (path pw : Bytes) : List Bytes → Type 0 where
    without_password : pw ≡ [] → h.authenticate_none ≡ ok tt → Secured path pw []
    with_password :
        {hash : Bytes}
        → pw ≢ []
        → pw_hash_from_binary (h.exec path) pw ≡ ok hash
        → h.authenticate_password pw ≡ ok tt
        → Secured path pw (codes "HashedControlPassword" ∷ hash ∷ [])

  password_args-Secured :
      (path pw : Bytes) (extra : List Bytes)
      → password_args h path pw ≡ ok extra
      → authenticate h pw ≡ ok tt
      → Secured path pw extra
  unfolding password_args authenticate
  password_args-Secured path pw extra made accepted = elim (Bool-cases (is_empty pw)) [
    | inl none_set ↦
        let e : [] ≡ extra = ok-injective (rw none_set at made) in
        rw (← e) (without_password ((same_iff pw []).0 none_set) (rw none_set at accepted))
    | inr set ↦
        let (hash, hashed, e) =
          >>=-eq-ok (pw_hash_from_binary (h.exec path) pw) _ (rw set at made) in
        let e' : codes "HashedControlPassword" ∷ hash ∷ [] ≡ extra = ok-injective e in
        rw (← e') (
          with_password
            (λ nothing. absurd (let h' = rw ((same_iff pw []).1 nothing) at set in ground arith))
            hashed (rw set at accepted))
  ]

  -- A process of Tor with its arguments, and the controller that was reached.
  pub record Launched (random : Bytes) (conf : Conf) (m t : Machine) (i : Instance) : Type 0 where
    pub binary : Bytes
    pub extra : List Bytes
    pub named : binary ≡ (if is_empty conf.binary then codes "tor" else conf.binary)
    pub supported : check_tor_v3_support (h.exec binary) ≡ ok tt
    pub path : i.binary_path ≡ h.abs (h.look_path binary)
    pub password : i.control_pw ≡ (if conf.control_pass then prng_string random else [])
    pub secured : Secured i.binary_path i.control_pw extra
    pub directory : t.dirs ≡ m.dirs ++ (conf.data_dir ∷ [])
    pub processes :
        t.processes
        ≡ m.processes
          ++ (record {
            pid = i.pid;
            path = i.binary_path;
            args =
                codes "-f"
                ∷ conf.torrc
                ∷ codes "--ignore-missing-torrc"
                ∷ codes "SocksPort"
                ∷ itoa conf.socks_port
                ∷ codes "ControlPort"
                ∷ itoa conf.control_port
                ∷ codes "DataDirectory"
                ∷ conf.data_dir
                ∷ extra;
          }
              ∷ [])
    pub proxy : i.proxy ≡ codes "127.0.0.1:" ++ itoa conf.socks_port
    pub attempt : ℕ
    pub in_time : attempt ≤ h.deadline
    pub reached : h.new_controller (codes "127.0.0.1:" ++ itoa conf.control_port) attempt ≡ ok tt

  module _ (random : Bytes) (conf : Conf) (m : Machine) where
    run_binary_lem :
        (path pw : Bytes) (pid : ℕ) (t : Machine)
        → run_binary h conf path pw m ≡ (ok pid, t)
        → (extra : List Bytes) × (password_args h path pw ≡ ok extra)
          × (t.processes
              ≡ m.processes
                ++ (record { pid = pid; path = path; args = base_args conf ++ extra } ∷ []))
          × (t.dirs ≡ m.dirs ++ (conf.data_dir ∷ []))
    unfolding run_binary
    run_binary_lem path pw pid t e =
        let (u, made, e1) = lift-returns _ m pid t (h.mkdir_all conf.data_dir) e in
        let (extra, hashed, e2) = lift-returns _ _ pid t (password_args h path pw) e1 in
        let (id, started, e3) =
          lift-returns _ _ pid t (h.start path (base_args conf ++ extra)) e2 in
        let same : id ≡ pid = ok-injective (ap (λ (x : Outcome ℕ × Machine). x.0) e3) in
        (
          extra,
          hashed,
          rw (← same) (ap (λ (x : Outcome ℕ × Machine). x.1.processes) (sym e3)),
          ap (λ (x : Outcome ℕ × Machine). x.1.dirs) (sym e3),
        )

    -- When the making of an instance goes through, the data directory was made, and one process of the
    -- configured binary, or of `tor`, runs beside those that ran, told the configuration's file, its
    -- two ports and that directory, the port of the SOCKS proxy being that of the instance's proxy. The
    -- binary passed the check for hidden services of version 3. A password was made exactly if the
    -- configuration asks for one. If it is not empty, the process was told the hash that the binary
    -- gives for it, and the controller was authenticated with it; if it is, neither. The controller
    -- was reached at the configured port at the timeout or before.
    pub new_instance-Launched :
        (i : Instance) (t : Machine)
        → new_instance h random conf m ≡ (ok i, t)
        → Launched random conf m t i
    unfolding new_instance connect_controller
    new_instance-Launched i t e =
        let (binary, named, e1) = lift-returns _ m i t (binary_of conf) e in
        let (u, supported, e2) = lift-returns _ m i t (check_tor_v3_support (h.exec binary)) e1 in
        let path : Bytes = path_of h binary in
        let pw : Bytes = password_of h random conf in
        let (pid, s, ran, e3) = >>=-returns _ m i t (run_binary h conf path pw) e2 in
        let (v, connected, e4) = lift-returns _ s i t (connect_controller h conf pw) e3 in
        let (w, dialled, accepted) =
          >>=-eq-ok (dial (h.new_controller (local_address conf.control_port)) h.deadline 0) _
            connected in
        let (attempt, in_time, reached) =
          dial-ok (h.new_controller (local_address conf.control_port)) h.deadline 0 dialled in
        let (extra, hashed, processes, directory) = run_binary_lem path pw pid s ran in
        let made : record {
          conf = conf;
          proxy = local_address conf.socks_port;
          control_pw = pw;
          binary_path = path;
          pid = pid;
        }
            ≡ i =
          ok-injective (ap (λ (x : Outcome Instance × Machine). x.0) e4) in
        let ends : s ≡ t = ap (λ (x : Outcome Instance × Machine). x.1) e4 in
        rw (← made, ← ends)
          (record {
            binary = binary;
            extra = extra;
            named = binary_of-lem conf binary named;
            supported = supported;
            path = refl;
            password = refl;
            secured = password_args-Secured path pw extra hashed accepted;
            directory = directory;
            processes = processes;
            proxy = refl;
            attempt = attempt;
            in_time = in_time;
            reached =
                ap (h.new_controller (local_address conf.control_port)) (omega arith) ∙ reached;
          })

    -- When the making of an instance goes through, and its process has an id that no other has,
    -- stopping it leaves the processes that ran before.
    pub stop-new_instance :
        (i : Instance) (t : Machine)
        → new_instance h random conf m ≡ (ok i, t)
        → All (λ r. r.pid ≢ i.pid) m.processes
        → (stop i t).processes ≡ m.processes
    unfolding stop
    stop-new_instance i t e fresh =
        let l = new_instance-Launched i t e in
        ap (keep (other_process i.pid)) l.processes
        ∙ keep-last i.pid
            (record { pid = i.pid; path = i.binary_path; args = base_args conf ++ l.extra })
            m.processes refl fresh

    -- When Tor was started but its controller does not answer by the timeout, or refuses the password,
    -- the error is returned without an instance that could be stopped, and the process goes on running.
    pub new_instance-left_running :
        (binary : Bytes) (pid : ℕ) (t : Machine) (g : Error)
        → binary_of conf ≡ ok binary
        → check_tor_v3_support (h.exec binary) ≡ ok tt
        → run_binary h conf (path_of h binary) (password_of h random conf) m ≡ (ok pid, t)
        → connect_controller h conf (password_of h random conf) ≡ err g
        → (new_instance h random conf m ≡ (err g, t))
          × ((args : List Bytes) × (t.processes
                ≡ m.processes ++ (record { pid = pid; path = path_of h binary; args = args } ∷ [])))
    unfolding new_instance
    new_instance-left_running binary pid t g named supported ran failed =
        let (extra, hashed, processes, directory) =
          run_binary_lem (path_of h binary) (password_of h random conf) pid t ran in
        (rw named (rw supported (rw ran (rw failed refl))), (base_args conf ++ extra, processes))
