-- ===== src/Api/Notifier.antt =====
-- internal/api/notifier.go with `routeOpenWS` of api.go: the observers and what is written to them.
-- The library of the sockets is a parameter; a socket is a number, and a call on a nil socket panics.
use onionmsg.Base.{
  ℕ, ◌≡◌, refl, ap, sym, ◌∙◌, Error, List, [], ◌∷◌, ◌++◌, Option, none, some, Bytes, Outcome, ok,
  err, panic, codes, map, append_assoc, append-nil,
}
use onionmsg.Exec.{Exec, done, modify, ◌>>◌}
use onionmsg.Daemon.State.{Event, messages_arrived, room_added, failed, request_arrived}

-- The observers in the order in which they came; nil where an upgrade failed. `written` are the
-- notifications that went out, each with its socket.
pub record Observers : Type 0 where
  pub sockets : List (Option ℕ)
  pub written : List (ℕ × Bytes)

-- What `wsUpgrader.Upgrade` returns is appended, its error only logged.
unfoldable pub route_open_ws : Outcome ℕ → Exec Observers (Unit {0})
route_open_ws (ok c) o = (ok tt, record o { sockets = o.sockets ++ (some c ∷ []) })
route_open_ws (err e) o = (ok tt, record o { sockets = o.sockets ++ (none ∷ []) })
route_open_ws panic o = (panic, o)

-- The loop of `NotifyObservers`; a socket whose write fails is closed and stays in the list, so that
-- the writes to it are all tried.
unfoldable pub notify_each : Bytes → List (Option ℕ) → Exec Observers (Unit {0})
notify_each raw [] = done
notify_each raw (none ∷ sockets) = λ o. (panic, o)
notify_each raw (some c ∷ sockets) = do
  modify (λ o. record o { written = o.written ++ ((c, raw) ∷ []) })
  notify_each raw sockets

unfoldable pub notify_observers : Bytes → Exec Observers (Unit {0})
unfolding notify_each
notify_observers raw o = notify_each raw o.sockets o

-- The name of the type of a notification; `encode` makes its JSON.
unfoldable pub notification_type : Event → Bytes
notification_type (messages_arrived id ms) = codes "NewMessage"
notification_type (room_added i) = codes "NewRoom"
notification_type (failed e) = codes "Error"
notification_type (request_arrived v) = codes "NewRequest"

-- The hooks that `registerHooks` sets: `NotifyNewMessage`, `NotifyNewRoom`, `NotifyError` and
-- `NotifyNewRequest`.
unfoldable pub notify : (Bytes → Event → Bytes) → Event → Exec Observers (Unit {0})
unfolding notify_observers
notify encode e = notify_observers (encode (notification_type e) e)

notify_each-all :
    (raw : Bytes) (cs : List ℕ) (rest : List (Option ℕ)) (o : Observers)
    → notify_each raw (map some cs ++ rest) o
      ≡ notify_each raw rest (record o { written = o.written ++ map (λ c. (c, raw)) cs })
unfolding notify_each
notify_each-all raw [] rest o = rw append-nil refl
notify_each-all raw (c ∷ cs) rest o =
    notify_each-all raw cs rest (record o { written = o.written ++ ((c, raw) ∷ []) })
    ∙ ap (λ w. notify_each raw rest (record o { written = w }))
        (append_assoc o.written ((c, raw) ∷ []) (map (λ c. (c, raw)) cs))

unfoldable pub to_each : List ℕ → Bytes → Observers → Observers
to_each cs raw o = record o { written = o.written ++ map (λ c. (c, raw)) cs }

-- If every upgrade so far worked, a notification of an event goes to every observer, in the order in
-- which they came. Once one upgrade has failed, the same notification panics after it has gone to
-- those who came before.
pub route_open_ws-failed :
    (encode : Bytes → Event → Bytes) (e : Event) (f : Error) (cs : List ℕ) (o : Observers)
    → o.sockets ≡ map some cs
    → let t = (route_open_ws (err f) o).1 in
      (notify encode e o ≡ (ok tt, to_each cs (encode (notification_type e) e) o))
      × (notify encode e t ≡ (panic, to_each cs (encode (notification_type e) e) t))
unfolding notify notify_observers notify_each route_open_ws to_each
route_open_ws-failed encode e f cs o good =
    let raw : Bytes = encode (notification_type e) e in
    let t : Observers = record o { sockets = o.sockets ++ (none ∷ []) } in
    let whole : map some cs ≡ map some cs ++ [] = sym (append-nil (map some cs)) in
    (
      ap (λ s. notify_each raw s o) (good ∙ whole) ∙ notify_each-all raw cs [] o,
      ap (λ s. notify_each raw (s ++ (none ∷ [])) t) good ∙ notify_each-all raw cs (none ∷ []) t,
    )
