-- ===== src/Command.antt =====
-- internal/types/command_handler.go: what a command message does to the room that it arrives in.
pub mod NoPanic
pub mod Cases
pub mod Ready
pub mod Frame
pub mod Authority
use onionmsg.Base.{
  ℕ, Bool, true, false, not, ltb, ◌||◌, if◌then◌else◌, List, [], ◌∷◌, ◌++◌, Option, none, some,
  Bytes, codes, same, length, split, index, Outcome, ok, err, panic, not_a_command,
  already_registered, not_registered, wrong_command, not_enough_args, already_added, peer_not_found,
  peer_not_admin,
}
use onionmsg.Base
use onionmsg.Exec.{Exec, done, raise, lift, ask, modify, try_modify, ◌>>=◌, ◌>>◌}
use onionmsg.Identity.{Identity, IdentityMeta, remote, new_identity, fingerprint}
use onionmsg.Message.{Message, meta_of, content_of, data_of, is_command, command_delimiter}
use onionmsg.Peer.{Peer, new_messaging_peer, start_queue, peer_fingerprint}
use onionmsg.Room
use onionmsg.Room.{Room, peer_by_fingerprint, is_self}

abbrev pub invite : Bytes
invite = codes "invite"

abbrev pub name_room : Bytes
name_room = codes "name_room"

abbrev pub nick : Bytes
nick = codes "nick"

abbrev pub promote : Bytes
promote = codes "promote"

abbrev pub remove_peer : Bytes
remove_peer = codes "remove_peer"

abbrev pub accept : Bytes
accept = codes "accept"

abbrev pub Callback : Type 0
Callback = Bytes → Message → Exec Room (Unit {0})

-- `commandCallbacks`, a map in the source.
abbrev pub Registry : Type 0
Registry = List (Bytes × Callback)

unfoldable pub find_callback : Bytes → Registry → Option Callback
find_callback name [] = none
find_callback name ((key, cb) ∷ reg) = if same key name then some cb else find_callback name reg

unfoldable pub register_command : Bytes → Callback → Registry → Outcome Registry
register_command name cb reg = elim (find_callback name reg) [
  | some old ↦ err (already_registered name)
  | none ↦ ok (reg ++ ((name, cb) ∷ []))
]

run_callback : Option Callback → Callback
run_callback none command m = raise (not_registered command)
run_callback (some cb) command m = cb command m

unfoldable pub handle_command : Registry → Message → Exec Room (Unit {0})
unfolding run_callback
handle_command reg m = do
  (has_command, command) ← lift (is_command m)
  if has_command then run_callback (find_callback command reg) command m else raise not_a_command

-- The words of the message, if it is the expected command and there are enough of them.
unfoldable pub parse_command : Message → Bytes → Bytes → ℕ → Outcome (List Bytes)
parse_command m actual expected needed =
    let args = split command_delimiter (data_of (content_of m)) in
    if same actual expected
    then (if ltb (length args) needed then err (not_enough_args actual) else ok args)
    else err (wrong_command actual)

-- A copy of an `Identity` shares its metadata with the original. This says whose they are: those
-- of the first peer with a fingerprint, or the room's own.
pub data MetaRef : Type 0 where
  of_peer : Bytes → MetaRef
  of_self : MetaRef

check_admin : Bool → Bytes → Identity → MetaRef → Outcome (Identity × MetaRef)
check_admin false fp i ref = ok (i, ref)
check_admin true fp i ref = elim i.meta [
  | none ↦ panic
  | some m ↦ if m.admin then ok (i, ref) else err (peer_not_admin fp)
]

unfoldable pub get_sender : Bytes → Bool → Room → Outcome (Identity × MetaRef)
unfolding check_admin
get_sender fp should_be_admin r = elim (peer_by_fingerprint r fp) [
  | some i ↦ check_admin should_be_admin fp i (of_peer fp)
  | none ↦
      if same (fingerprint r.self) fp
      then check_admin should_be_admin fp r.self of_self
      else err (peer_not_found fp)
]

write_meta : (IdentityMeta → IdentityMeta) → Identity → Outcome Identity
write_meta f i = elim i.meta [ none ↦ panic | some m ↦ ok (record i { meta = some (f m) }) ]

write_peer : (IdentityMeta → IdentityMeta) → Peer → Outcome Peer
unfolding write_meta
write_peer f p = Base.◌>>=◌ (write_meta f p.r_identity) λ i. ok (record p { r_identity = i })

write_peers : (IdentityMeta → IdentityMeta) → Bytes → List Peer → Outcome (List Peer)
unfolding write_peer
write_peers f fp [] = panic
write_peers f fp (p ∷ ps) =
    if same (peer_fingerprint p) fp
    then Base.◌>>=◌ (write_peer f p) (λ q. ok (q ∷ ps))
    else Base.◌>>=◌ (write_peers f fp ps) (λ qs. ok (p ∷ qs))

-- An assignment to a field of the metadata.
unfoldable pub write_ref : (IdentityMeta → IdentityMeta) → MetaRef → Room → Outcome Room
unfolding write_peers write_meta
write_ref f (of_peer fp) r =
    Base.◌>>=◌ (write_peers f fp r.peers) λ ps. ok (record r { peers = ps })
write_ref f of_self r = Base.◌>>=◌ (write_meta f r.self) λ i. ok (record r { self = i })

abbrev pub set_nick : Bytes → IdentityMeta → IdentityMeta
set_nick n m = record m { nick = n }

abbrev pub set_admin : IdentityMeta → IdentityMeta
set_admin m = record m { admin = true }

abbrev pub is_known : Bytes → Room → Bool
is_known fp r = elim (peer_by_fingerprint r fp) [
  | some i ↦ true
  | none ↦ same fp (fingerprint r.self)
]

pub start_and_append : Peer → Room → Outcome Room
start_and_append p r =
    Base.◌>>=◌ (start_queue r.ctx p) λ q. ok (record r { peers = r.peers ++ (q ∷ []) })

unfoldable pub invite_callback : Callback
unfolding start_and_append
invite_callback command m = do
  args ← lift (parse_command m command invite 2)
  fp ← lift (index args 1)
  known ← ask (λ r. ok (is_known fp r))
  if known then raise (already_added fp) else (do
    i ← lift (new_identity remote [] fp)
    try_modify (start_and_append (new_messaging_peer i)))

unfoldable pub name_room_callback : Callback
name_room_callback command m = do
  args ← lift (parse_command m command name_room 2)
  new_name ← lift (index args 1)
  modify (λ r. record r { name = new_name })

unfoldable pub nick_callback : Callback
nick_callback command m = do
  args ← lift (parse_command m command nick 2)
  (sender, ref) ← ask (get_sender (meta_of m).sender false)
  nickname ← lift (index args 1)
  try_modify (write_ref (set_nick nickname) ref)

pub promoted : Bytes → Room → Outcome Room
promoted fp r = elim (peer_by_fingerprint r fp) [
  | some i ↦ write_ref set_admin (of_peer fp) r
  | none ↦ if is_self r fp then write_ref set_admin of_self r else err (peer_not_found fp)
]

unfoldable pub promote_callback : Callback
unfolding promoted
promote_callback command m = do
  args ← lift (parse_command m command promote 2)
  _ ← ask (get_sender (meta_of m).sender true)
  fp ← lift (index args 1)
  try_modify (promoted fp)

-- The peer that was removed is dropped.
pub removed : Bytes → Room → Outcome Room
removed fp r = Base.◌>>=◌ (Room.remove_peer r fp) λ (p, t). ok t

unfoldable pub remove_peer_callback : Callback
unfolding removed
remove_peer_callback command m = do
  args ← lift (parse_command m command remove_peer 2)
  _ ← ask (get_sender (meta_of m).sender true)
  fp ← lift (index args 1)
  try_modify (removed fp)

unfoldable pub register_room_commands : Registry → Outcome Registry
register_room_commands reg = Base.◌>>=◌ (register_command invite invite_callback reg) λ reg1.
    Base.◌>>=◌ (register_command name_room name_room_callback reg1) λ reg2.
      Base.◌>>=◌ (register_command nick nick_callback reg2) λ reg3.
        Base.◌>>=◌ (register_command promote promote_callback reg3)
          λ reg4. register_command remove_peer remove_peer_callback reg4

unfoldable pub construct_command : Bytes → Bytes → Bytes
construct_command [] [] = []
construct_command (c ∷ rest) [] = c ∷ rest
construct_command [] (k ∷ command) = k ∷ command
construct_command (c ∷ rest) (k ∷ command) = (k ∷ command) ++ (command_delimiter ∷ c ∷ rest)

-- What the package's `init` leaves in the map.
unfoldable pub room_commands : Registry
room_commands =
    (invite, invite_callback)
    ∷ (name_room, name_room_callback)
    ∷ (nick, nick_callback)
    ∷ (promote, promote_callback)
    ∷ (remove_peer, remove_peer_callback)
    ∷ []
