-- ===== src/Identity.antt =====
-- internal/types/identity.go: who a contact, a peer or a room's own side is. The address of a
-- hidden service, `torgo.ServiceIDFromEd25519`, is a parameter; the key that `GenerateKey` returns
-- is an argument.
pub mod Keys
use onionmsg.Base.{
  Bool, true, false, List, [], ◌∷◌, ◌++◌, Option, none, some, Bytes, codes, Outcome, ok, err,
  no_private_key, no_public_key, ◌>>=◌,
}
use onionmsg.Base64.{encode, decode}
use onionmsg.Ed25519
use onionmsg.Ed25519.{Scheme, public_of}

pub data IdentityType : Type 0 where
  remote self contact : IdentityType

pub record IdentityMeta : Type 0 where
  pub nick : Bytes
  pub admin : Bool

-- `none` stands for a nil pointer.
pub record Identity : Type 0 where
  pub type : IdentityType
  pub priv : Option Bytes
  pub pub_key : Option Bytes
  pub meta : Option IdentityMeta

-- The zero value `Identity{}` has the empty type, which no function below is asked about.
abbrev pub empty_meta : IdentityMeta
empty_meta = record { nick = []; admin = false }

unfoldable pub fill_public_key : Identity → Bytes → Outcome Identity
fill_public_key i fp = do raw ← decode fp; ok (record i { pub_key = some raw })

unfoldable pub fill_key_pair : Identity → Bytes → Identity
fill_key_pair i key = record i { priv = some key; pub_key = some (public_of key) }

abbrev bare : IdentityType → Identity
bare t = record { type = t; priv = none; pub_key = none; meta = none }

-- `key` is what `GenerateKey` returns, if it is called.
unfoldable pub new_identity : IdentityType → Bytes → Bytes → Outcome Identity
unfolding fill_public_key fill_key_pair
new_identity remote key fp = do
  i ← fill_public_key (bare remote) fp
  ok (record i { meta = some empty_meta })
new_identity self key fp = ok (record (fill_key_pair (bare self) key) { meta = some empty_meta })
new_identity contact key fp = ok (fill_key_pair (bare contact) key)

module _ (c : Scheme) where
  unfoldable pub sign : Identity → Bytes → Outcome Bytes
  sign i msg = elim i.priv [ none ↦ err no_private_key | some key ↦ Ed25519.sign c key msg ]

  unfoldable pub verify : Identity → Bytes → Bytes → Outcome Bool
  verify i msg sig = elim i.pub_key [
    | none ↦ err no_public_key
    | some key ↦ Ed25519.verify c key msg sig
  ]

same_type : IdentityType → IdentityType → Bool
same_type remote remote = true
same_type self self = true
same_type contact contact = true
same_type _ _ = false

unfoldable pub is_type : Identity → List IdentityType → Bool
unfolding same_type
is_type i [] = false
is_type i (t ∷ ts) = elim (same_type i.type t) [ true ↦ true | false ↦ is_type i ts ]

unfoldable pub fingerprint : Identity → Bytes
fingerprint i = elim i.pub_key [ none ↦ [] | some key ↦ encode key ]

type_name : IdentityType → Bytes
type_name remote = codes "RemoteIdentity"
type_name self = codes "SelfIdentity"
type_name contact = codes "ContactIdentity"

pub to_string : Identity → Bytes
unfolding type_name
to_string i = type_name i.type ++ (codes ": " ++ fingerprint i)

module _ (service_id_of : Bytes → Bytes) where
  unfoldable pub service_id : Identity → Bytes
  service_id i = elim i.pub_key [ none ↦ [] | some key ↦ service_id_of key ]

  unfoldable pub url : Identity → Bytes
  unfolding service_id
  url i = service_id i ++ codes ".onion"

unfoldable pub admin : Identity → Bool
admin i = elim i.meta [ none ↦ false | some m ↦ m.admin ]

unfoldable pub nick : Identity → Bytes
nick i = elim i.meta [ none ↦ [] | some m ↦ m.nick ]
