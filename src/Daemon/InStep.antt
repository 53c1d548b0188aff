-- ===== src/Daemon/InStep.antt =====
-- Rooms, contact identities and hidden services in step: the invariant that internal/daemon/room_util.go
-- and contact_util.go keep over the variables of internal/daemon/daemon.go.
pub mod Lists
pub mod Kin
pub mod Services
pub mod Registered
pub mod Operations
pub mod Accepted
pub mod Made
pub mod Dialled
pub mod Served
pub mod Started
pub mod Steps
use mathlib.Core.List.{Perm}
use onionmsg.Base.{
  ◌≡◌, true, List, ◌∷◌, ◌++◌, map, Option, none, some, Bytes, Outcome, ok, err, panic, All, [],
}
use onionmsg.Ed25519.{Scheme, public_of}
use onionmsg.Identity.{Identity}
use onionmsg.Room.{Room}
use onionmsg.Command.NoPanic.{IsReady}
use onionmsg.Tor.{Controller, Onion}
use onionmsg.Daemon.State.{Daemon, RoomRequest}
use onionmsg.Daemon.Requests.{with_context}

-- What the daemon relies on of Tor: a key and its public half name one service, a service that is
-- added runs beside those that ran, and one that is deleted is the one that stops.
pub record Laws (c : Scheme) (ctrl : Controller) : Type 0 where
  pub same_service :
      (key : Bytes)
      → c.is_key key ≡ true
      → ctrl.onion_from_ed25519 key ≡ ctrl.service_id_from_ed25519 (public_of key)
  pub added :
      (os os' : List Onion) (o : Onion)
      → ctrl.add_onion os o ≡ ok os'
      → Perm (map (λ p. p.service) os') (o.service ∷ map (λ p. p.service) os)
  pub deleted :
      (os os' : List Onion) (sid : Bytes)
      → ctrl.delete_onion os sid ≡ ok os'
      → Perm (map (λ p. p.service) os) (sid ∷ map (λ p. p.service) os')

or_empty : Outcome Bytes → Bytes
or_empty (ok s) = s
or_empty (err e) = []
or_empty panic = []

-- The service of an identity.
unfoldable pub service_of : Controller → Identity → Bytes
unfolding or_empty
service_of ctrl i = elim i.pub_key [
  | none ↦ []
  | some key ↦ or_empty (ctrl.service_id_from_ed25519 key)
]

-- The services that run, and those that the contact identities and the rooms call for.
abbrev pub running : Daemon → List Bytes
running d = map (λ o. o.service) d.onions

abbrev pub owed : Controller → Daemon → List Bytes
owed ctrl d =
    map (service_of ctrl) d.contact_identities ++ map (λ r. service_of ctrl r.self) d.rooms

-- An identity of this side: a generated key and its public half.
pub record IsOwn (c : Scheme) (i : Identity) : Type 0 where
  pub key : Bytes
  pub generated : c.is_key key ≡ true
  pub priv : i.priv ≡ some key
  pub pub_key : i.pub_key ≡ some (public_of key)

abbrev pub RoomOk : Scheme → Room → Type 0
RoomOk c r = IsOwn c r.self × IsReady r

abbrev pub RequestOk : Scheme → RoomRequest → Type 0
RequestOk c v = RoomOk c (with_context v.room)

pub record InStep (c : Scheme) (ctrl : Controller) (d : Daemon) : Type 0 where
  pub served : Perm (running d) (owed ctrl d)
  pub contacts : All (IsOwn c) d.contact_identities
  pub rooms : All (RoomOk c) d.rooms
  pub requests : All (RequestOk c) d.requests

-- What the data file of a daemon that was in step holds, once it is loaded and its rooms have
-- contexts: no service runs yet.
pub record Stored (c : Scheme) (d : Daemon) : Type 0 where
  pub silent : d.onions ≡ []
  pub contacts : All (IsOwn c) d.contact_identities
  pub rooms : All (RoomOk c) d.rooms
  pub requests : All (RequestOk c) d.requests
