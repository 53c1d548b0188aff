-- ===== src/Sync/Stored.antt =====
-- The files that were sent are the files that are stored: the blobs of the serving side against what
-- the calling side read.
use onionmsg.Base.{
  ◌≡◌, ◌≢◌, refl, ap, sym, ◌∙◌, false, Bool-cases, inl, inr, List, [], ◌∷◌, if◌then◌else◌, ◌++◌,
  map, none, some, Bytes, All, append_assoc, append-nil, same, same_iff, same_refl, arith,
}
use onionmsg.Conn.Stream.{joined}
use onionmsg.Daemon.Session.{Blobs, append_blob}
use onionmsg.Daemon.Conversations.Transfer.{append_blocks, store}
use onionmsg.Sync.{file_of}
use onionmsg.Sync.Blocks.{blocks, joined-blocks}
use onionmsg.Sync.Sends.{cut, Holds}

same_ne : (i id : Bytes) → i ≢ id → same i id ≡ false
same_ne i id ne = elim (Bool-cases (same i id)) [
  | inl e ↦ absurd (ne ((same_iff i id).0 e))
  | inr e ↦ e
]

append_blob-other :
    (id i b : Bytes) (bs : Blobs) → i ≢ id → file_of i (append_blob id b bs) ≡ file_of i bs
unfolding append_blob file_of
append_blob-other id i b [] ne = rw (same_ne id i (λ e. ne (sym e))) refl
append_blob-other id i b ((k, old) ∷ bs) ne = elim (Bool-cases (same k id)) [
  | inl e ↦
      let k_is : k ≡ id = (same_iff k id).0 e in
      let other : same k i ≡ false = same_ne k i (λ h. ne (sym h ∙ k_is)) in rw (e, other) refl
  | inr e ↦ rw e (ap (λ rest. if same k i then some old else rest) (append_blob-other id i b bs ne))
]

append_blob-new :
    (id b : Bytes) (bs : Blobs) → file_of id bs ≡ none → file_of id (append_blob id b bs) ≡ some b
unfolding append_blob file_of
append_blob-new id b [] h = rw (same_refl id) refl
append_blob-new id b ((k, old) ∷ bs) h = elim (Bool-cases (same k id)) [
  | inl e ↦ absurd (let h' = rw e at h in ground arith)
  | inr e ↦ rw e (rw e (append_blob-new id b bs (rw e at h)))
]

append_blob-more :
    (id b old : Bytes) (bs : Blobs)
    → file_of id bs ≡ some old
    → file_of id (append_blob id b bs) ≡ some (old ++ b)
unfolding append_blob file_of
append_blob-more id b old [] h = absurd (ground arith)
append_blob-more id b old ((k, file) ∷ bs) h = elim (Bool-cases (same k id)) [
  | inl e ↦
      let h' : some file ≡ some old = rw e at h in
      let file_is : file ≡ old = ground arith in rw e (rw e (ap (λ f. some (f ++ b)) file_is))
  | inr e ↦ rw e (rw e (append_blob-more id b old bs (rw e at h)))
]

append_blocks-other :
    (id i : Bytes) (bks : List Bytes) (bs : Blobs)
    → i ≢ id
    → file_of i (append_blocks id bks bs) ≡ file_of i bs
append_blocks-other id i [] bs ne = refl
append_blocks-other id i (b ∷ bks) bs ne =
    append_blocks-other id i bks (append_blob id b bs) ne ∙ append_blob-other id i b bs ne

append_blocks-more :
    (id old : Bytes) (bks : List Bytes) (bs : Blobs)
    → file_of id bs ≡ some old
    → file_of id (append_blocks id bks bs) ≡ some (old ++ joined bks)
append_blocks-more id old [] bs h = rw append-nil h
append_blocks-more id old (b ∷ bks) bs h =
    append_blocks-more id (old ++ b) bks (append_blob id b bs) (append_blob-more id b old bs h)
    ∙ ap some (append_assoc old b (joined bks))

-- A blob that was sent, with the blocks that came.
abbrev stored_one : Bytes → List Bytes → Blobs → Blobs
stored_one id bks bs = append_blocks id bks (append_blob id [] bs)

stored_one-other :
    (id i : Bytes) (bks : List Bytes) (bs : Blobs)
    → i ≢ id
    → file_of i (stored_one id bks bs) ≡ file_of i bs
stored_one-other id i bks bs ne =
    append_blocks-other id i bks (append_blob id [] bs) ne ∙ append_blob-other id i [] bs ne

store-other :
    (i : Bytes) (sent : List (Bytes × Bytes)) (bs : Blobs)
    → All (λ (id, f). i ≢ id) sent
    → file_of i (store (map cut sent) bs) ≡ file_of i bs
store-other i [] bs h = refl
store-other i ((id, f) ∷ sent) bs h =
    store-other i sent (stored_one id (blocks f) bs) h.1 ∙ stored_one-other id i (blocks f) bs h.0

-- The ids are new to the files, and no two are equal.
abbrev pub AreNew : List (Bytes × Bytes) → Blobs → Type 0
AreNew [] bs = Unit
AreNew ((id, f) ∷ sent) bs = (file_of id bs ≡ none) × All (λ (i, g). id ≢ i) sent × AreNew sent bs

AreNew-stored_one :
    (id : Bytes) (bks : List Bytes) (sent : List (Bytes × Bytes)) (bs : Blobs)
    → All (λ (i, g). id ≢ i) sent
    → AreNew sent bs
    → AreNew sent (stored_one id bks bs)
AreNew-stored_one id bks [] bs ne new = tt
AreNew-stored_one id bks ((i, f) ∷ sent) bs ne new = (
  stored_one-other id i bks bs (λ e. ne.0 (sym e)) ∙ new.0,
  new.1,
  AreNew-stored_one id bks sent bs ne.1 new.2,
)

-- Files that are cut into blocks, sent, and stored under ids that differ and are new there are there
-- afterwards, byte for byte.
pub store-Holds :
    (sent : List (Bytes × Bytes)) (bs : Blobs)
    → AreNew sent bs
    → All (Holds (store (map cut sent) bs)) sent
store-Holds [] bs new = tt
store-Holds ((id, f) ∷ sent) bs new =
    let whole : file_of id (stored_one id (blocks f) bs) ≡ some f =
      append_blocks-more id [] (blocks f) (append_blob id [] bs) (append_blob-new id [] bs new.0)
      ∙ ap some (joined-blocks f).0 in
    (
      store-other id sent (stored_one id (blocks f) bs) new.1 ∙ whole,
      store-Holds sent (stored_one id (blocks f) bs)
          (AreNew-stored_one id (blocks f) sent bs new.1 new.2),
    )
