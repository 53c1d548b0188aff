-- ===== src/Base/Outcomes.antt =====
-- What a Go function returns: a value, an error value, or a panic that ends its goroutine.
use Prim.Native.Nat.{ℕ, zero, suc}
use mathlib.Core.Path.{◌≡◌, refl}
use mathlib.Core.Logic.{◌⊎◌, inl, inr}
use mathlib.Core.List.{List, [], ◌∷◌}
use native.Mathlib.Omega.{arith}
use onionmsg.Base.Text.{Bytes}

-- One constructor for each error that the program makes or passes on.
pub data Error : Type 0 where
  corrupt_input : Error
  no_private_key no_public_key : Error
  context_set : Error
  invalid_signature : Error
  not_a_command : Error
  already_registered not_registered wrong_command not_enough_args : Bytes → Error
  already_added peer_not_found peer_not_admin : Bytes → Error
  unexpected_response : Bytes → Bytes → Error
  challenge_failed : Error
  room_not_found request_not_found : Error
  too_large : ℕ → Error
  malformed_uuid malformed_json malformed_number : Error
  connection_error tor_error file_error : Error
  room_not_set file_missing : Error
  tor_version_unknown : Error
  tor_too_old : Bytes → Error

pub data Outcome {ℓ} (A : Type ℓ) : Type ℓ where
  ok : A → Outcome A
  err : Error → Outcome A
  panic : Outcome A

-- The rest of a function runs only after a value.
infixl 5 ◌>>=◌ ◌>>◌
abbrev pub ◌>>=◌ {ℓ κ} : {X : Type ℓ} {Y : Type κ} → Outcome X → (X → Outcome Y) → Outcome Y
panic >>= k = panic
err failure >>= k = err failure
ok x >>= k = k x

abbrev pub ◌>>◌ {ℓ κ} : {X : Type ℓ} {Y : Type κ} → Outcome X → Outcome Y → Outcome Y
first >> second = first >>= λ _. second

-- What returned a value went through both halves.
pub >>=-eq-ok {ℓ κ} :
    {X : Type ℓ} {Y : Type κ} {y : Y} (first : Outcome X) (second : X → Outcome Y)
    → (first >>= second) ≡ ok y
    → (x : X) × (first ≡ ok x) × (second x ≡ ok y)
>>=-eq-ok panic second returned = ground arith
>>=-eq-ok (err failure) second returned = ground arith
>>=-eq-ok (ok x) second returned = (x, refl, returned)

-- `xs[i]`, which panics out of range.
abbrev pub index {ℓ} : {A : Type ℓ} → List A → ℕ → Outcome A
index [] i = panic
index (x ∷ xs) zero = ok x
index (x ∷ xs) (suc i) = index xs i

pub Outcome-cases {ℓ} :
    {A : Type ℓ} (o : Outcome A)
    → ((a : A) × (o ≡ ok a)) ⊎ (((e : Error) × (o ≡ err e)) ⊎ (o ≡ panic))
Outcome-cases (ok a) = inl (a, refl)
Outcome-cases (err e) = inr (inl (e, refl))
Outcome-cases panic = inr (inr refl)

pub ok-injective {ℓ} : {A : Type ℓ} {a b : A} → ok a ≡ ok b → a ≡ b
ok-injective h = ground arith
