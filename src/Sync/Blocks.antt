-- ===== src/Sync/Blocks.antt =====
-- How `sendBlobs` of internal/types/messaging_peer.go cuts a file into blocks: the count that it
-- announces, and the reference for what its loop sends.
use onionmsg.Base.{
  ℕ, zero, suc, ◌+◌, ◌-◌, ◌*◌, ◌/◌, ◌%◌, ◌^◌, ◌≤◌, ◌<◌, ◌≡◌, ◌≢◌, refl, ap, ◌∙◌, ◌==◌,
  if◌then◌else◌, List, [], ◌∷◌, ◌++◌, take, drop, length, length-take, length-drop,
  take-append-drop, All, Bytes, arith,
}
use onionmsg.Conn.Stream.{joined}

-- 512K
abbrev pub blocksize : ℕ
blocksize = 2 ^ 19

unfoldable pub block_count : ℕ → ℕ
block_count size = if (size % blocksize) == 0 then size / blocksize else suc (size / blocksize)

-- What the reads into a buffer of a block's size give, up to a number of them.
unfoldable pub blocks_of : ℕ → Bytes → List Bytes
blocks_of zero file = []
blocks_of (suc c) file = take blocksize file ∷ blocks_of c (drop blocksize file)

unfoldable pub blocks : Bytes → List Bytes
unfolding block_count blocks_of
blocks file = blocks_of (block_count (length file)) file

-- The number of blocks is the least that holds the bytes.
pub record Counts (c n : ℕ) : Type 0 where
  pub enough : n ≤ c * blocksize
  pub least : c * blocksize < n + blocksize

pub block_count-Counts : (n : ℕ) → Counts (block_count n) n
unfolding block_count
block_count-Counts n = record { enough = ground arith; least = ground arith }

pub Counts-rest :
    (c : ℕ) (file : Bytes) → Counts (suc c) (length file) → Counts c (length (drop blocksize file))
Counts-rest c file h =
    let e : length (drop blocksize file) ≡ length file - blocksize = length-drop blocksize file in
    let h1 : length file ≤ suc c * blocksize = h.enough in
    let h2 : suc c * blocksize < length file + blocksize = h.least in
    record { enough = omega arith; least = omega arith }

pub Counts-some : (c : ℕ) (file : Bytes) → Counts (suc c) (length file) → file ≢ []
Counts-some c [] h = absurd (let h2 : suc c * blocksize < 0 + blocksize = h.least in omega arith)
Counts-some c (b ∷ file) h = λ e. ground arith

pub length-blocks_of : (c : ℕ) (file : Bytes) → length (blocks_of c file) ≡ c
unfolding blocks_of
length-blocks_of zero file = refl
length-blocks_of (suc c) file = ap suc (length-blocks_of c (drop blocksize file))

blocks_of-short : (c : ℕ) (file : Bytes) → All (λ b. length b ≤ blocksize) (blocks_of c file)
unfolding blocks_of
blocks_of-short zero file = tt
blocks_of-short (suc c) file =
    (omega (arith, length-take blocksize file), blocks_of-short c (drop blocksize file))

joined-blocks_of :
    (c : ℕ) (file : Bytes) → length file ≤ c * blocksize → joined (blocks_of c file) ≡ file
unfolding blocks_of
joined-blocks_of zero [] h = refl
joined-blocks_of zero (b ∷ file) h = absurd (omega arith)
joined-blocks_of (suc c) file h =
    ap (◌++◌ (take blocksize file))
      (joined-blocks_of c (drop blocksize file) (omega (arith, length-drop blocksize file)))
    ∙ take-append-drop blocksize file

-- The blocks of a file together are the file, none is longer than 512K, there are as many as the
-- count that is announced, and one block less would not hold the file.
pub joined-blocks :
    (file : Bytes)
    → (joined (blocks file) ≡ file)
      × All (λ b. length b ≤ blocksize) (blocks file)
      × (length (blocks file) ≡ block_count (length file))
      × Counts (block_count (length file)) (length file)
unfolding blocks
joined-blocks file =
    let h : Counts (block_count (length file)) (length file) = block_count-Counts (length file) in
    (
      joined-blocks_of (block_count (length file)) file h.enough,
      blocks_of-short (block_count (length file)) file,
      length-blocks_of (block_count (length file)) file,
      h,
    )
