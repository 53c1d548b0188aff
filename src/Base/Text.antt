-- ===== src/Base/Text.antt =====
-- Go strings and byte slices: lists of numbers below 256, compared as a whole.
use Prim.Native.Char.{code}
use Prim.Native.Nat.{ℕ, ◌<◌}
use Prim.Native.String.{String}
use mathlib.Core.Path.{◌≡◌, refl}
use mathlib.Core.Logic.{◌↔◌, ◌≢◌, inl, inr}
use mathlib.Core.Bool.{Bool, true, false, ◌&&◌, ◌||◌}
use mathlib.Core.List.{List, [], ◌∷◌, ◌++◌}
use native.Mathlib.Omega.{arith}
use onionmsg.Base.Tests.{◌==◌, ltb, if◌then◌else◌, Bool-cases}
use onionmsg.Base.Lists.{All}

abbrev pub Bytes : Type 0
Bytes = List ℕ

abbrev pub IsByte : ℕ → Type 0
IsByte b = b < 256

abbrev pub AreBytes : Bytes → Type 0
AreBytes = All IsByte

-- The code points of a literal: its bytes, since every literal here is ASCII.
abbrev pub codes : String → Bytes
codes String.[] = []
codes (String.◌∷◌ c s) = code c ∷ codes s

-- `==` on Go strings.
unfoldable pub same : Bytes → Bytes → Bool
same [] [] = true
same [] (y ∷ ys) = false
same (x ∷ xs) [] = false
same (x ∷ xs) (y ∷ ys) = (x == y) && same xs ys

pub same_iff : (xs ys : Bytes) → (same xs ys ≡ true) ↔ (xs ≡ ys)
unfolding same
same_iff [] [] = ground arith
same_iff [] (y ∷ ys) = ground arith
same_iff (x ∷ xs) [] = ground arith
same_iff (x ∷ xs) (y ∷ ys) = ground (arith, same_iff xs ys)

pub same_refl : (xs : Bytes) → same xs xs ≡ true
same_refl xs = (same_iff xs xs).1 refl

extend_first : ℕ → List Bytes → List Bytes
extend_first c [] = (c ∷ []) ∷ []
extend_first c (word ∷ words) = (c ∷ word) ∷ words

-- `strings.Split` at a delimiter of one byte.
unfoldable pub split : ℕ → Bytes → List Bytes
unfolding extend_first
split d [] = [] ∷ []
split d (c ∷ s) = let rest = split d s in if c == d then [] ∷ rest else extend_first c rest

pub split-ne-nil :
    (d : ℕ) (s : Bytes) → (word : Bytes) × (words : List Bytes) × (split d s ≡ word ∷ words)
unfolding split
split-ne-nil d [] = ([], [], refl)
split-ne-nil d (c ∷ s) = elim (Bool-cases (c == d)) [
  | inl e ↦ ([], split d s, rw e)
  | inr e ↦ let (word, words, h) = split-ne-nil d s in (c ∷ word, words, rw (e, h))
]

-- A text that has no delimiter is a word.
abbrev pub Lacks : ℕ → Bytes → Type 0
Lacks d = All (λ c. c ≢ d)

pub split-Lacks : (d : ℕ) (s : Bytes) → Lacks d s → split d s ≡ s ∷ []
unfolding split
split-Lacks d [] h = refl
split-Lacks d (c ∷ s) h = ground (arith, split-Lacks d s h.1)

-- A word, the delimiter and more text split into the word and the words of the rest.
pub split-append : (d : ℕ) (s t : Bytes) → Lacks d s → split d (s ++ (d ∷ t)) ≡ s ∷ split d t
unfolding split
split-append d [] t h = ground arith
split-append d (c ∷ s) t h = ground (arith, split-append d s t h.1)

-- `strings.Trim`: the characters for which `p` holds are dropped at both ends.
unfoldable pub trim_left : (ℕ → Bool) → Bytes → Bytes
trim_left p [] = []
trim_left p (c ∷ s) = let rest = trim_left p s in if p c then rest else c ∷ s

unfoldable pub put_before : (ℕ → Bool) → ℕ → Bytes → Bytes
put_before p c [] = if p c then [] else c ∷ []
put_before p c (d ∷ s) = c ∷ d ∷ s

unfoldable pub trim_right : (ℕ → Bool) → Bytes → Bytes
trim_right p [] = []
trim_right p (c ∷ s) = put_before p c (trim_right p s)

unfoldable pub trim : (ℕ → Bool) → Bytes → Bytes
unfolding trim_left trim_right put_before
trim p s = trim_right p (trim_left p s)

-- `<` on Go strings.
unfoldable pub less : Bytes → Bytes → Bool
less [] [] = false
less [] (y ∷ ys) = true
less (x ∷ xs) [] = false
less (x ∷ xs) (y ∷ ys) = ltb x y || ((x == y) && less xs ys)
