-- ===== src/Tor/Versions.antt =====
-- Which versions of Tor are taken.
use onionmsg.Base.{
  ℕ, ◌+◌, ◌-◌, ◌/◌, ◌%◌, ◌<◌, ◌≤◌, ◌≡◌, ◌≢◌, ◌⊎◌, refl, ap, inl, inr, true, false, if◌then◌else◌,
  All-append, List, [], ◌∷◌, ◌++◌, Bytes, codes, length, length-append, take-append, leb, take,
  split, split-Lacks, split-append, Lacks, trim, trim_left, trim_right, put_before, less,
  append-nil, Outcome, ok, err, tor_too_old, arith,
}
use onionmsg.Tor.Binary.{
  newline, space, is_newline, first_of, behind_title, get_execution_output, version_from_binary,
  check_tor_v3_support, judged,
}

put_before-keep : (c : ℕ) (s : Bytes) → c ≢ newline → put_before is_newline c s ≡ c ∷ s
unfolding put_before
put_before-keep c [] h = ground arith
put_before-keep c (d ∷ s) h = refl

trim_right-append :
    (s t : Bytes) → Lacks newline s → trim_right is_newline (s ++ t) ≡ s ++ trim_right is_newline t
unfolding trim_right
trim_right-append [] t h = refl
trim_right-append (c ∷ s) t h =
    rw (trim_right-append s t h.1) (put_before-keep c (s ++ trim_right is_newline t) h.0)

-- A line break is dropped with what follows it, or stays in front of it.
trim_right-newline :
    (more : Bytes)
    → (trim_right is_newline (newline ∷ more) ≡ [])
      ⊎ ((rest : Bytes) × (trim_right is_newline (newline ∷ more) ≡ newline ∷ rest))
unfolding trim_right put_before
trim_right-newline more = go (trim_right is_newline more)
  where
    go :
        (t : Bytes)
        → (put_before is_newline newline t ≡ [])
          ⊎ ((rest : Bytes) × (put_before is_newline newline t ≡ newline ∷ rest))
    go [] = inl refl
    go (d ∷ t) = inr (d ∷ t, refl)

trim_right-line :
    (s more : Bytes)
    → Lacks newline s
    → first_of (split newline (trim_right is_newline (s ++ (newline ∷ more)))) ≡ s
unfolding first_of
trim_right-line s more h = elim (trim_right-newline more) [
  | inl e ↦
      rw (trim_right-append s (newline ∷ more) h)
        (rw e (rw (append-nil s) (rw (split-Lacks newline s h) refl)))
  | inr (rest, e) ↦
      rw (trim_right-append s (newline ∷ more) h) (rw e (rw (split-append newline s rest h) refl))
]

-- What `tor --version` prints first: the version, in some builds with a note, and a full stop.
pub data Note : Bytes → Type 0 where
  no_note : Note []
  note : (text : Bytes) → Lacks newline text → Note (space ∷ text)

abbrev pub title : Bytes
title = codes "Tor version "

abbrev pub first_line : Bytes → Bytes → Bytes
first_line version remark = title ++ ((version ++ remark) ++ codes ".")

but_last : (s : Bytes) (c : ℕ) → take (length (s ++ (c ∷ [])) - 1) (s ++ (c ∷ [])) ≡ s
but_last s c =
    let size : length (s ++ (c ∷ [])) - 1 ≡ length s = omega (arith, length-append s (c ∷ [])) in
    rw size (take-append s (c ∷ []))

long_enough : (raw : Bytes) → 12 < length raw → leb 13 (length raw) ≡ true
long_enough raw h = ground arith

behind_title-line : (s : Bytes) (c : ℕ) → behind_title (title ++ (s ++ (c ∷ []))) ≡ ok s
unfolding behind_title
behind_title-line s c =
    let long : leb 13 (length (title ++ (s ++ (c ∷ [])))) ≡ true =
      long_enough (title ++ (s ++ (c ∷ []))) (omega (arith, length-append s (c ∷ []))) in
    let kept : take (length (title ++ (s ++ (c ∷ []))) - 1) (title ++ (s ++ (c ∷ [])))
        ≡ title ++ s =
      but_last (title ++ s) c in
    rw (long, kept) refl

first_word :
    (version remark : Bytes)
    → Lacks space version
    → Note remark
    → first_of (split space (version ++ remark)) ≡ version
unfolding first_of
first_word version remark h no_note =
    rw (append-nil version) (rw (split-Lacks space version h) refl)
first_word version remark h (note text one_line) = rw (split-append space version text h) refl

Note-Lacks : (remark : Bytes) → Note remark → Lacks newline remark
Note-Lacks remark no_note = tt
Note-Lacks remark (note text one_line) = (omega arith, one_line)

module _ (exec : List Bytes → Outcome Bytes) (version remark more : Bytes)
    (one_word : Lacks space version) (one_line : Lacks newline version) (noted : Note remark)
    (prints : exec (codes "--version" ∷ [])
      ≡ ok (first_line version remark ++ (newline ∷ more))) where
  version_from_binary_lem : version_from_binary exec ≡ ok version
  unfolding version_from_binary get_execution_output trim trim_left
  version_from_binary_lem =
      let whole : Lacks newline (first_line version remark) =
        All-append (λ c. c ≢ newline) title _ (ground arith)
          (All-append (λ c. c ≢ newline) (version ++ remark) (codes ".")
            (All-append (λ c. c ≢ newline) version remark one_line (Note-Lacks remark noted))
            (ground arith)) in
      rw prints (
        rw (trim_right-line (first_line version remark) more whole) (
          rw (behind_title-line (version ++ remark) b'.')
            (ap (λ (s : Bytes). ok s) (first_word version remark one_word noted))))

-- A number with one digit, and one with two.
abbrev pub digit : ℕ → Bytes
digit n = (b'0' + n) ∷ []

abbrev pub two_digits : ℕ → Bytes
two_digits n = (b'0' + n / 10) ∷ (b'0' + n % 10) ∷ []

abbrev pub dotted : Bytes → Bytes → Bytes → Bytes → Bytes
dotted a b c d = a ++ (b'.' ∷ (b ++ (b'.' ∷ (c ++ (b'.' ∷ d)))))

module _ (exec : List Bytes → Outcome Bytes) (remark more : Bytes) (noted : Note remark) where
  -- As long as the four fields of a version have one digit each, the comparison of texts is that of
  -- the fields: with or without a note of one line, and whatever more lines, a version from 0.3.3.6 on is taken, and
  -- an older one is refused with an error that names it.
  pub check_tor_v3_support-fields :
      (a b c d : ℕ)
      → a < 10
      → b < 10
      → c < 10
      → d < 10
      → exec (codes "--version" ∷ [])
        ≡ ok
            (first_line (dotted (digit a) (digit b) (digit c) (digit d)) remark ++ (newline ∷ more))
      → check_tor_v3_support exec ≡ (
          if less (a ∷ b ∷ c ∷ d ∷ []) (0 ∷ 3 ∷ 3 ∷ 6 ∷ [])
          then err (tor_too_old (dotted (digit a) (digit b) (digit c) (digit d)))
          else ok tt)
  unfolding check_tor_v3_support judged less
  check_tor_v3_support-fields a b c d ha hb hc hd prints =
      let version = dotted (digit a) (digit b) (digit c) (digit d) in
      rw
        (version_from_binary_lem exec version remark more (ground arith) (ground arith) noted
          prints)
        (ground arith)

  -- A last field with two digits may be refused although it is newer: 0.3.3.10 to 0.3.3.59 are.
  pub check_tor_v3_support-two_digits :
      (d : ℕ)
      → 10 ≤ d
      → d < 60
      → exec (codes "--version" ∷ [])
        ≡ ok (
            first_line (dotted (digit 0) (digit 3) (digit 3) (two_digits d)) remark
            ++ (newline ∷ more))
      → (check_tor_v3_support exec
          ≡ err (tor_too_old (dotted (digit 0) (digit 3) (digit 3) (two_digits d))))
        × (less (0 ∷ 3 ∷ 3 ∷ d ∷ []) (0 ∷ 3 ∷ 3 ∷ 6 ∷ []) ≡ false)
  unfolding check_tor_v3_support judged less
  check_tor_v3_support-two_digits d low high prints =
      let version = dotted (digit 0) (digit 3) (digit 3) (two_digits d) in
      (
        rw
            (version_from_binary_lem exec version remark more (ground arith) (ground arith) noted
              prints)
            (ground arith),
        ground arith,
      )
