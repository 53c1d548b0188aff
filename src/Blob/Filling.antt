-- ===== src/Blob/Filling.antt =====
-- The loop of `writeIntoFile` of pkg/blobmngr/manager.go ends, and what it writes.
use onionmsg.Base.{
  ℕ, zero, suc, ◌+◌, ◌≤◌, ◌<◌, ◌≡◌, refl, ap, sym, ◌∙◌, leb, Bool-cases, inl, inr, true, false,
  List, [], ◌∷◌, ◌++◌, take, drop, length, length-append, length-drop, take-append-drop, take-all,
  append_assoc, some, Bytes, arith,
}
use onionmsg.Conn.{left_over}
use onionmsg.Conn.Stream.{joined}
use onionmsg.Blob.{prepend, write_loop, write_into_file}

-- The pieces before the first empty one.
abbrev pub until_empty : List Bytes → List Bytes
until_empty [] = []
until_empty ([] ∷ pieces) = []
until_empty ((b ∷ piece) ∷ pieces) = (b ∷ piece) ∷ until_empty pieces

left_over-shorter :
    (b : ℕ) (piece : Bytes) (pieces : List Bytes)
    → length (joined (left_over 4096 (b ∷ piece) pieces)) ≤ length piece + length (joined pieces)
unfolding left_over
left_over-shorter b piece pieces = elim (Bool-cases (leb (suc (length piece)) 4096)) [
  | inl e ↦ rw e (omega arith)
  | inr e ↦
      rw e (omega (arith, length-append (drop 4095 piece) (joined pieces), length-drop 4095 piece))
]

less_of : (a b : ℕ) → leb a b ≡ false → b < a
less_of a b e = ground arith

at_most : (a b : ℕ) → leb a b ≡ true → a ≤ b
at_most a b e = ground arith

left_over-joined :
    (n b : ℕ) (piece : Bytes) (pieces : List Bytes)
    → take (suc n) (b ∷ piece) ++ joined (until_empty (left_over (suc n) (b ∷ piece) pieces))
      ≡ (b ∷ piece) ++ joined (until_empty pieces)
unfolding left_over
left_over-joined n b piece pieces = elim (Bool-cases (leb (suc (length piece)) (suc n))) [
  | inl e ↦ rw e (
      ap (λ p. p ++ joined (until_empty pieces))
        (take-all (suc n) (b ∷ piece) (at_most (suc (length piece)) (suc n) e)))
  | inr e ↦
      let long : suc n < suc (length piece) = less_of (suc (length piece)) (suc n) e in
      rw e (rest (drop n piece) refl (omega (arith, length-drop n piece)))
]
  where
    rest :
        (left : Bytes)
        → drop n piece ≡ left
        → 0 < length (drop n piece)
        → take (suc n) (b ∷ piece) ++ joined (until_empty (drop n piece ∷ pieces))
          ≡ (b ∷ piece) ++ joined (until_empty pieces)
    rest [] e more = absurd (let m : 0 < 0 = rw e at more in omega arith)
    rest (k ∷ left) e more =
        ap (λ l. take (suc n) (b ∷ piece) ++ joined (until_empty (l ∷ pieces))) e
        ∙ (sym (append_assoc (take (suc n) (b ∷ piece)) (k ∷ left) (joined (until_empty pieces)))
            ∙ ap (λ p. p ++ joined (until_empty pieces))
                (ap (◌++◌ (take (suc n) (b ∷ piece))) (sym e)
                  ∙ take-append-drop (suc n) (b ∷ piece)))

write_loop-enough :
    (n : ℕ) (pieces : List Bytes)
    → length (joined pieces) < n
    → write_loop n pieces ≡ some (joined (until_empty pieces))
unfolding write_loop prepend
write_loop-enough zero pieces h = absurd (omega arith)
write_loop-enough (suc n) [] h = refl
write_loop-enough (suc n) ([] ∷ pieces) h = refl
write_loop-enough (suc n) ((b ∷ piece) ∷ pieces) h =
    rw
      (write_loop-enough n (left_over 4096 (b ∷ piece) pieces) (
        omega (arith, left_over-shorter b piece pieces, length-append (b ∷ piece) (joined pieces))))
      (ap some (left_over-joined 4095 b piece pieces))

-- The loop ends for every stream, with as many rounds as the stream has bytes and one more; what it
-- has written are the bytes before the first read that returned none.
pub write_into_file-ends :
    (pieces : List Bytes) → write_into_file pieces ≡ some (joined (until_empty pieces))
unfolding write_into_file
write_into_file-ends pieces = write_loop-enough (suc (length (joined pieces))) pieces (omega arith)
