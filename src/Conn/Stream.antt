-- ===== src/Conn/Stream.antt =====
-- Reads from the buffered stream, in whatever pieces it arrives.
use onionmsg.Base.{
  ℕ, zero, suc, true, false, ◌+◌, ◌-◌, ◌≤◌, ◌<◌, ◌≡◌, refl, ap, ◌∙◌, sym, leb, List, [], ◌∷◌, ◌++◌,
  take, drop, length, length-append, length-drop, All, Bytes, ok, Bool-cases, inl, inr, arith,
  take-append_le, take-append_ge, drop-append_le, drop-append_ge, drop-all, drop-drop,
  if◌then◌else◌,
}
use onionmsg.Conn.{read_piece, read_loop, left_over}

abbrev pub joined : List Bytes → Bytes
joined [] = []
joined (piece ∷ pieces) = piece ++ joined pieces

-- No read returns nothing.
abbrev pub NonEmpty : List Bytes → Type 0
NonEmpty = All (λ piece. 0 < length piece)

-- The first `n` bytes came in one piece.
abbrev pub Prompt : ℕ → List Bytes → Type 0
Prompt n [] = ⊥
Prompt n (piece ∷ pieces) = n ≤ length piece

-- The pieces less their first bytes.
unfoldable pub after : ℕ → List Bytes → List Bytes
after n [] = []
after n (piece ∷ pieces) =
    let rest = after (n - length piece) pieces in
    if leb (length piece) n then rest else drop n piece ∷ pieces

pub NonEmpty-after : (n : ℕ) (pieces : List Bytes) → NonEmpty pieces → NonEmpty (after n pieces)
unfolding after
NonEmpty-after n [] full = tt
NonEmpty-after n (piece ∷ pieces) full = elim (Bool-cases (leb (length piece) n)) [
  | inl e ↦ rw e (NonEmpty-after (n - length piece) pieces full.1)
  | inr e ↦ rw e (ground (arith, length-drop n piece), full.1)
]

pub joined-after : (n : ℕ) (pieces : List Bytes) → joined (after n pieces) ≡ drop n (joined pieces)
unfolding after
joined-after n [] = sym (drop-all n [] (omega arith))
joined-after n (piece ∷ pieces) = elim (Bool-cases (leb (length piece) n)) [
  | inl e ↦ rw e (
      joined-after (n - length piece) pieces
      ∙ sym (drop-append_ge n piece (joined pieces) (ground arith)))
  | inr e ↦ rw e (sym (drop-append_le n piece (joined pieces) (ground arith)))
]

after-zero : (pieces : List Bytes) → NonEmpty pieces → after 0 pieces ≡ pieces
unfolding after
after-zero [] full = refl
after-zero (piece ∷ pieces) full =
    let h : 0 < length piece = full.0 in
    let more : leb (length piece) 0 ≡ false = ground arith in rw more refl

pub after-after : (n m : ℕ) (pieces : List Bytes) → after m (after n pieces) ≡ after (n + m) pieces
unfolding after
after-after n m [] = refl
after-after n m (piece ∷ pieces) = elim (Bool-cases (leb (length piece) n)) [
  | inl e ↦
      let e' : leb (length piece) (n + m) ≡ true = ground arith in
      let same : (n - length piece) + m ≡ (n + m) - length piece = ground arith in
      rw (e, e') (after-after (n - length piece) m pieces ∙ ap (λ k. after k pieces) same)
  | inr e ↦
      let same : m - (length piece - n) ≡ (n + m) - length piece = ground arith in
      rw (e, length-drop n piece, drop-drop n m piece, same)
        (elim (Bool-cases (leb (length piece) (n + m))) [
          | inl e1 ↦ let e2 : leb (length piece - n) m ≡ true = ground arith in rw (e1, e2) refl
          | inr e1 ↦ let e2 : leb (length piece - n) m ≡ false = ground arith in rw (e1, e2) refl
        ])
]

left_over-after :
    (n : ℕ) (piece : Bytes) (pieces : List Bytes)
    → NonEmpty pieces
    → n ≤ length piece
    → left_over n piece pieces ≡ after n (piece ∷ pieces)
unfolding left_over after
left_over-after n piece pieces full h = elim (Bool-cases (leb (length piece) n)) [
  | inl e ↦
      let same : n - length piece ≡ 0 = ground arith in rw (e, same) (sym (after-zero pieces full))
  | inr e ↦ rw e refl
]

pub read_piece-lem :
    (n : ℕ) (pieces : List Bytes)
    → NonEmpty pieces
    → Prompt n pieces
    → (read_piece n pieces ≡ (ok (take n (joined pieces)), after n pieces))
      × NonEmpty (after n pieces)
unfolding read_piece
read_piece-lem n [] full prompt = absurd prompt
read_piece-lem n (piece ∷ pieces) full prompt = (
  rw (take-append_le n piece (joined pieces) prompt, left_over-after n piece pieces full.1 prompt)
      refl,
  NonEmpty-after n (piece ∷ pieces) full,
)

pub read_loop-lem :
    (pieces : List Bytes) (need : ℕ)
    → NonEmpty pieces
    → need ≤ length (joined pieces)
    → read_loop pieces need ≡ (ok (take need (joined pieces)), after need pieces)
unfolding read_loop
read_loop-lem [] zero full h = unfold after in refl
read_loop-lem [] (suc need) full h = absurd (omega arith)
read_loop-lem (piece ∷ pieces) zero full h =
    ap (λ l. (ok [], l)) (sym (after-zero (piece ∷ pieces) full))
read_loop-lem (piece ∷ pieces) (suc need) full h =
    elim (Bool-cases (leb (suc need) (length piece))) [
      | inl e ↦
          let fits : suc need ≤ length piece = ground arith in
          rw
            (
              e,
              take-append_le (suc need) piece (joined pieces) fits,
              left_over-after (suc need) piece pieces full.1 fits,
            )
            refl
      | inr e ↦
          let ih =
            read_loop-lem pieces (suc need - length piece) full.1
              (omega (arith, length-append piece (joined pieces))) in
          let e' : leb (length piece) (suc need) ≡ true = ground arith in
          rw (e, ih, take-append_ge (suc need) piece (joined pieces) (ground arith))
            (unfold after in rw e' refl)
    ]
