-- ===== src/Sockets.antt =====
-- pkg/sio/socket.go and simple_server.go, and the dialling of pkg/sio/connection/data_conn.go: which
-- addresses are listened on and dialled, and which handlers are called.
use onionmsg.Base.{
  ℕ, Bool, true, false, not, if◌then◌else◌, List, [], ◌∷◌, ◌++◌, Option, none, some, Bytes, codes,
  same, keep, Outcome, ok, err, panic, Error, file_error, connection_error,
}
use onionmsg.Exec.{Exec, raise, lift, ask, modify, ◌>>=◌, ◌>>◌}
use onionmsg.Tor.Instance.{itoa}

pub record Listener : Type 0 where
  pub network : Bytes
  pub address : Bytes

-- The socket files that are there, and the listeners that are open.
pub record Sockets : Type 0 where
  pub files : List Bytes
  pub listeners : List Listener

-- `runtime.GOOS == "linux"`, `os.Getenv("XDG_RUNTIME_DIR")`, whether a file can be removed, and what
-- `net.Listen` answers.
pub record Machinery : Type 0 where
  pub linux : Bool
  pub xdg_runtime_dir : Bytes
  pub can_remove : Bytes → Bool
  pub can_listen : Listener → Bool

there : Bytes → List Bytes → Bool
there path [] = false
there path (f ∷ fs) = if same f path then true else there path fs

module _ (n : Machinery) where
  listen : Listener → Exec Sockets Listener
  listen l =
      if n.can_listen l
      then (do modify (λ s. record s { listeners = s.listeners ++ (l ∷ []) }); lift (ok l))
      else raise connection_error

  remove_old : Bytes → Exec Sockets (Unit {0})
  remove_old path =
      if n.can_remove path
      then modify (λ s. record s { files = keep (λ f. not (same f path)) s.files })
      else raise file_error

  abbrev pub socket_path : Bytes → Bytes
  socket_path name =
      (if same n.xdg_runtime_dir [] then codes "/tmp" else n.xdg_runtime_dir) ++ (codes "/" ++ name)

  -- A listener on a path makes the file.
  listen_unix : Bytes → Exec Sockets Listener
  unfolding listen
  listen_unix path = do
    l ← listen (record { network = codes "unix"; address = path })
    modify (λ s. record s { files = s.files ++ (path ∷ []) })
    lift (ok l)

  unfoldable pub create_unix_socket : Bytes → Exec Sockets Listener
  unfolding listen_unix remove_old there
  create_unix_socket name =
      if n.linux
      then (do
        old ← ask (λ s. ok (there (socket_path name) s.files))
        if old
            then (do remove_old (socket_path name); listen_unix (socket_path name))
            else listen_unix (socket_path name))
      else raise connection_error

  unfoldable pub create_tcp_socket : ℕ → Exec Sockets Listener
  unfolding listen
  create_tcp_socket port =
      listen (record { network = codes "tcp"; address = codes "127.0.0.1:" ++ itoa port })

-- `StartServer` over what `Accept` returns: the connections that handlers are started with, nil after
-- an error, and the errors that the hook is called with.
unfoldable pub start_server : {A : Type 0} → Bool → List (Outcome A) → List (Option A) × List Error
start_server hook [] = ([], [])
start_server hook (ok c ∷ rest) =
    let (conns, errors) = start_server hook rest in (some c ∷ conns, errors)
start_server hook (err e ∷ rest) =
    let (conns, errors) = start_server hook rest in
    (none ∷ conns, if hook then e ∷ errors else errors)
start_server hook (panic ∷ rest) = ([], [])

-- `DialDataConn`: through the proxy if it is set.
unfoldable pub dial_data_conn :
    {C : Type 0}
    → (via : Bytes → Bytes → Bytes → Outcome C) (direct : Bytes → Bytes → Outcome C) → Option Bytes
    → Bytes
    → Bytes
    → Outcome C
dial_data_conn via direct none network address = direct network address
dial_data_conn via direct (some proxy) network address = via proxy network address
