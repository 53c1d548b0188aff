-- ===== src/Daemon/Slices/Laws.antt =====
-- The removal takes out the first match and nothing else, in whatever order it leaves the rest.
use mathlib.Core.List.{Perm}
use mathlib.Core.List.Perm
use onionmsg.Base.{◌≡◌, refl, Bool, true, List, [], ◌∷◌, none, some, Bool-cases, inl, inr, arith}
use onionmsg.Daemon.Slices.{
  find_first, swap_remove, write_first, fill_with_last, last_of, all_but_last,
}

module _ {A : Type 0} where
  last_of-perm : (x : A) (xs : List A) → Perm (x ∷ xs) (last_of x xs ∷ all_but_last x xs)
  unfolding last_of all_but_last
  last_of-perm x [] = Perm.refl (x ∷ [])
  last_of-perm x (y ∷ ys) =
      Perm.trans (Perm.cons x (last_of-perm y ys)) (Perm.swap (last_of y ys) x (all_but_last y ys))

  fill_with_last-perm : (xs : List A) → Perm xs (fill_with_last xs)
  unfolding fill_with_last
  fill_with_last-perm [] = Perm.refl []
  fill_with_last-perm (y ∷ ys) = last_of-perm y ys

  pub swap_remove-perm :
      (p : A → Bool) (xs : List A) (x : A)
      → find_first p xs ≡ some x
      → Perm xs (x ∷ swap_remove p xs)
  unfolding find_first swap_remove
  swap_remove-perm p [] x e = absurd (ground arith)
  swap_remove-perm p (y ∷ ys) x e = elim (Bool-cases (p y)) [
    | inl hit ↦ rw hit (Perm.cons' (ground arith) (fill_with_last-perm ys))
    | inr miss ↦ rw miss (
        Perm.trans (Perm.cons y (swap_remove-perm p ys x (ground arith)))
          (Perm.swap x y (swap_remove p ys)))
  ]

  pub swap_remove-none :
      (p : A → Bool) (xs : List A) → find_first p xs ≡ none → swap_remove p xs ≡ xs
  unfolding find_first swap_remove
  swap_remove-none p [] e = refl
  swap_remove-none p (y ∷ ys) e = ground (arith, swap_remove-none p ys)

  pub find_first-match :
      (p : A → Bool) (xs : List A) (x : A) → find_first p xs ≡ some x → p x ≡ true
  unfolding find_first
  find_first-match p [] x e = ground arith
  find_first-match p (y ∷ ys) x e = ground (arith, find_first-match p ys x)

  pub find_first-write_first :
      (p : A → Bool) (xs : List A) (x y : A)
      → find_first p xs ≡ some x
      → p y ≡ true
      → find_first p (write_first p y xs) ≡ some y
  unfolding find_first write_first
  find_first-write_first p [] x y e hy = absurd (ground arith)
  find_first-write_first p (z ∷ zs) x y e hy = elim (Bool-cases (p z)) [
    | inl hit ↦ rw hit (rw hy refl)
    | inr miss ↦ rw miss (rw miss (find_first-write_first p zs x y (ground arith) hy))
  ]
