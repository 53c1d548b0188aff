-- ===== src/Exec/Returns.antt =====
-- A method that returned a value went through each of its calls.
use onionmsg.Base.{◌≡◌, refl, Outcome, ok, err, panic, arith}
use onionmsg.Exec.{Exec, lift, ◌>>=◌}

module _ {S A B : Type 0} (k : A → Exec S B) (s : S) (b : B) (t : S) where
  pub >>=-returns :
      (m : Exec S A)
      → (m >>= k) s ≡ (ok b, t)
      → (a : A) × (u : S) × (m s ≡ (ok a, u)) × (k a u ≡ (ok b, t))
  >>=-returns m h = go (m s) refl h
    where
      go :
          (r : Outcome A × S)
          → m s ≡ r
          → (m >>= k) s ≡ (ok b, t)
          → (a : A) × (u : S) × (m s ≡ (ok a, u)) × (k a u ≡ (ok b, t))
      go (ok a, u) e h = (a, u, e, rw e at h)
      go (err f, u) e h = absurd (let h' = rw e at h in ground arith)
      go (panic, u) e h = absurd (let h' = rw e at h in ground arith)

  pub lift-returns :
      (o : Outcome A) → (lift o >>= k) s ≡ (ok b, t) → (a : A) × (o ≡ ok a) × (k a s ≡ (ok b, t))
  lift-returns (ok a) h = (a, refl, h)
  lift-returns (err f) h = absurd (ground arith)
  lift-returns panic h = absurd (ground arith)
