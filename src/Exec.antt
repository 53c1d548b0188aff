-- ===== src/Exec.antt =====
-- Methods with a pointer receiver: the object after the call comes back beside the outcome, since
-- what was written before an error stays written.
pub mod Returns
use onionmsg.Base.{Outcome, Error, ok, err, panic}

abbrev pub Exec : Type 0 → Type 0 → Type 0
Exec S A = S → Outcome A × S

module _ {S : Type 0} where
  abbrev pub done : Exec S (Unit {0})
  done s = (ok tt, s)

  abbrev pub raise : {A : Type 0} → Error → Exec S A
  raise e s = (err e, s)

  abbrev pub lift : {A : Type 0} → Outcome A → Exec S A
  lift o s = (o, s)

  -- A call that reads the object.
  abbrev pub ask : {A : Type 0} → (S → Outcome A) → Exec S A
  ask f s = (f s, s)

  abbrev pub modify : (S → S) → Exec S (Unit {0})
  modify f s = (ok tt, f s)

  -- A write that may panic, as through a nil pointer.
  abbrev pub write_or : Outcome S → Exec S (Unit {0})
  write_or (ok t) s = (ok tt, t)
  write_or (err e) s = (err e, s)
  write_or panic s = (panic, s)

  abbrev pub try_modify : (S → Outcome S) → Exec S (Unit {0})
  try_modify f s = write_or (f s) s

  abbrev pub resume : {A B : Type 0} → Outcome A → (A → Exec S B) → Exec S B
  resume (ok a) f s = f a s
  resume (err e) f s = (err e, s)
  resume panic f s = (panic, s)

  infixl 5 ◌>>=◌ ◌>>◌
  abbrev pub ◌>>=◌ : {A B : Type 0} → Exec S A → (A → Exec S B) → Exec S B
  ◌>>=◌ m f s = let (o, t) = m s in resume o f t

  abbrev pub ◌>>◌ : {A B : Type 0} → Exec S A → Exec S B → Exec S B
  m >> n = m >>= λ _. n
