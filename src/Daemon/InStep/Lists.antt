-- ===== src/Daemon/InStep/Lists.antt =====
-- The loops over slices and predicates that hold of every element.
use onionmsg.Base.{
  ◌≡◌, refl, ap, sym, ◌∙◌, Bool, Bool-cases, inl, inr, List, [], ◌∷◌, ◌++◌, map, some, All, arith,
}
use onionmsg.Daemon.Slices.{
  find_first, write_first, swap_remove, fill_with_last, last_of, all_but_last,
}

module _ {A : Type 0} where
  module _ (P : A → Type 0) where
    last_of-All :
        (x : A) (xs : List A) → P x → All P xs → P (last_of x xs) × All P (all_but_last x xs)
    unfolding last_of all_but_last
    last_of-All x [] hx h = (hx, tt)
    last_of-All x (y ∷ ys) hx h = let (last, rest) = last_of-All y ys h.0 h.1 in (last, (hx, rest))

    fill_with_last-All : (xs : List A) → All P xs → All P (fill_with_last xs)
    unfolding fill_with_last
    fill_with_last-All [] h = tt
    fill_with_last-All (y ∷ ys) h = last_of-All y ys h.0 h.1

    pub swap_remove-All : (p : A → Bool) (xs : List A) → All P xs → All P (swap_remove p xs)
    unfolding swap_remove
    swap_remove-All p [] h = tt
    swap_remove-All p (x ∷ xs) h = elim (Bool-cases (p x)) [
      | inl e ↦ rw e (fill_with_last-All xs h.1)
      | inr e ↦ rw e (h.0, swap_remove-All p xs h.1)
    ]

    pub find_first-All :
        (p : A → Bool) (xs : List A) (x : A) → find_first p xs ≡ some x → All P xs → P x
    unfolding find_first
    find_first-All p [] x e h = absurd (ground arith)
    find_first-All p (y ∷ ys) x e h = elim (Bool-cases (p y)) [
      | inl hit ↦ let same : y ≡ x = ground arith in rw (← same) h.0
      | inr miss ↦ find_first-All p ys x (rw miss at e) h.1
    ]

    pub write_first-All :
        (p : A → Bool) (y : A) (xs : List A) → P y → All P xs → All P (write_first p y xs)
    unfolding write_first
    write_first-All p y [] hy h = tt
    write_first-All p y (x ∷ xs) hy h = elim (Bool-cases (p x)) [
      | inl e ↦ rw e (hy, h.1)
      | inr e ↦ rw e (h.0, write_first-All p y xs hy h.1)
    ]

  -- A write that keeps what is asked of the elements.
  pub map-write_first :
      {B : Type 0} (f : A → B) (p : A → Bool) (y : A) (xs : List A) (x : A)
      → find_first p xs ≡ some x
      → f y ≡ f x
      → map f (write_first p y xs) ≡ map f xs
  unfolding write_first find_first
  map-write_first f p y [] x e same = refl
  map-write_first f p y (z ∷ zs) x e same = elim (Bool-cases (p z)) [
    | inl hit ↦
        let this : z ≡ x = ground arith in rw hit (ap (λ b. b ∷ map f zs) (same ∙ ap f (sym this)))
    | inr miss ↦ rw miss (ap (λ bs. f z ∷ bs) (map-write_first f p y zs x (rw miss at e) same))
  ]

  pub map-append_one :
      {B : Type 0} (f : A → B) (xs : List A) (y : A)
      → map f (xs ++ (y ∷ [])) ≡ map f xs ++ (f y ∷ [])
  map-append_one f [] y = refl
  map-append_one f (x ∷ xs) y = ap (λ bs. f x ∷ bs) (map-append_one f xs y)
