-- ===== src/Daemon/Session.antt =====
-- What the handler of a connection works on: the connection, the state of the daemon, and the files of
-- pkg/blobmngr/manager.go.
use onionmsg.Base.{
  Outcome, ok, err, panic, Bool, if◌then◌else◌, List, [], ◌∷◌, ◌++◌, Bytes, same, not, keep,
}
use onionmsg.Exec.{Exec, done}
use onionmsg.Conn.{Conn}
use onionmsg.Daemon.State.{Daemon}

-- The blobs by their ids.
abbrev pub Blobs : Type 0
Blobs = List (Bytes × Bytes)

-- A file that is opened with `O_APPEND` and `O_CREATE` and then written to.
unfoldable pub append_blob : Bytes → Bytes → Blobs → Blobs
append_blob id bytes [] = (id, bytes) ∷ []
append_blob id bytes ((i, b) ∷ bs) =
    if same i id then (i, b ++ bytes) ∷ bs else (i, b) ∷ append_blob id bytes bs

abbrev other_blob : Bytes → Bytes × Bytes → Bool
other_blob id (i, b) = not (same i id)

unfoldable pub remove_blob : Bytes → Blobs → Blobs
remove_blob id bs = keep (other_blob id) bs

pub record Session : Type 0 where
  pub conn : Conn
  pub daemon : Daemon
  pub blobs : Blobs

-- A call on one of the three.
abbrev pub on_conn : {A : Type 0} → Exec Conn A → Exec Session A
on_conn m s = let (o, t) = m s.conn in (o, record s { conn = t })

abbrev pub on_daemon : {A : Type 0} → Exec Daemon A → Exec Session A
on_daemon m s = let (o, t) = m s.daemon in (o, record s { daemon = t })

abbrev pub on_blobs : (Blobs → Blobs) → Exec Session (Unit {0})
on_blobs f s = (ok tt, record s { blobs = f s.blobs })

-- A call, what is done after its error, and what is done with its value.
abbrev pub caught :
    {A : Type 0}
    → Outcome A
    → Exec Session (Unit {0})
    → (A → Exec Session (Unit {0}))
    → Exec Session (Unit {0})
caught (ok a) failed k s = k a s
caught (err e) failed k s = failed s
caught panic failed k s = (panic, s)

abbrev pub catch :
    {A : Type 0}
    → Exec Session A
    → Exec Session (Unit {0})
    → (A → Exec Session (Unit {0}))
    → Exec Session (Unit {0})
catch m failed k s = let (o, t) = m s in caught o failed k t

-- `if err != nil { return }`
abbrev pub or_return :
    {A : Type 0} → Exec Session A → (A → Exec Session (Unit {0})) → Exec Session (Unit {0})
or_return m k = catch m done k
