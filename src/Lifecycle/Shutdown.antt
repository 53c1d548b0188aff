-- ===== src/Lifecycle/Shutdown.antt =====
-- What the end of the daemon stops of what its start has started.
use onionmsg.Base.{
  ℕ, ◌≡◌, ◌≢◌, refl, Bool, All, List, [], ◌∷◌, ◌++◌, none, some, Bytes, Error, ok, err, panic,
}
use onionmsg.Tor.Binary.{check_tor_v3_support}
use onionmsg.Tor.Instance.{
  Host, Machine, Instance, binary_of, run_binary, connect_controller, path_of, password_of,
  new_instance,
}
use onionmsg.Tor.Launch.{stop-new_instance, new_instance-left_running}
use onionmsg.Lifecycle.{Params}
use onionmsg.Lifecycle.Startup.{TorState, tor_conf, start_tor, stop_tor}

module _ (h : Host) (random : Bytes) (p : Params) (use_control_pass : Bool) (binary_path : Bytes)
    (s : TorState) where
  -- After a start of Tor that goes through, whose process has an id that no other has, the end of the
  -- daemon leaves the processes that ran before the start.
  pub stop_tor-start_tor :
      (i : Instance) (m : Machine)
      → new_instance h random (tor_conf p use_control_pass binary_path) s.machine ≡ (ok i, m)
      → All (λ r. r.pid ≢ i.pid) s.machine.processes
      → (t : TorState) × (start_tor h random p use_control_pass binary_path s ≡ (ok tt, t))
        × (t.instance ≡ some i)
        × ((stop_tor h t).machine.processes ≡ s.machine.processes)
  unfolding start_tor stop_tor
  stop_tor-start_tor i m made fresh = (
    record { machine = m; instance = some i; proxy = some i.proxy },
    rw made refl,
    refl,
    stop-new_instance h random (tor_conf p use_control_pass binary_path) s.machine i m made fresh,
  )

  -- When Tor was started but its controller does not answer by the timeout, or refuses the password,
  -- the start panics without an instance: the end of the daemon then stops nothing, and the process
  -- of Tor goes on running.
  pub start_tor-left_running :
      (binary : Bytes) (pid : ℕ) (m : Machine) (g : Error)
      → binary_of (tor_conf p use_control_pass binary_path) ≡ ok binary
      → check_tor_v3_support (h.exec binary) ≡ ok tt
      → run_binary h
          (tor_conf p use_control_pass binary_path)
          (path_of h binary)
          (password_of h random (tor_conf p use_control_pass binary_path))
          s.machine
        ≡ (ok pid, m)
      → connect_controller h
          (tor_conf p use_control_pass binary_path)
          (password_of h random (tor_conf p use_control_pass binary_path))
        ≡ err g
      → (t : TorState) × (start_tor h random p use_control_pass binary_path s ≡ (panic, t))
        × (stop_tor h t ≡ t)
        × ((args : List Bytes) × (t.machine.processes
              ≡ s.machine.processes
                ++ (record { pid = pid; path = path_of h binary; args = args } ∷ [])))
  unfolding start_tor stop_tor
  start_tor-left_running binary pid m g named supported ran failed =
      let (fails, left) =
        new_instance-left_running h random (tor_conf p use_control_pass binary_path) s.machine
          binary pid m g named supported ran failed in
      (record s { machine = m; instance = none }, rw fails refl, refl, left)
