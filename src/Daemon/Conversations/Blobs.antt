-- ===== src/Daemon/Conversations/Blobs.antt =====
-- What a connection leaves alone: the reading of blobs keeps the state of the daemon.
use onionmsg.Base.{
  ℕ, zero, suc, ◌≡◌, refl, ◌∙◌, Bool, true, false, List, [], ◌∷◌, Bytes, Outcome, ok, err, panic,
  codes,
}
use onionmsg.Exec.{Exec, resume, ◌>>=◌, ◌>>◌}
use onionmsg.Conn.{Zstd, read_bytes, read_int}
use onionmsg.Daemon.Session.{Session, on_conn, on_blobs, catch, append_blob}
use onionmsg.Daemon.Conversations.{
  Formats, say_now, read_slice, read_blocks, or_remove, read_file, read_opened, read_each,
  read_blobs,
}

module _ (P : Session → Type 0) where
  pub resume-lem :
      {A : Type 0} (o : Outcome A) (k : A → Exec Session (Unit {0})) (t : Session)
      → P t
      → ((a : A) → o ≡ ok a → P (k a t).1)
      → P (resume o k t).1
  resume-lem (ok a) k t before after = after a refl
  resume-lem (err e) k t before after = before
  resume-lem panic k t before after = before

  pub catch-lem :
      {A : Type 0} (m : Exec Session A) (failed : Exec Session (Unit {0}))
      (k : A → Exec Session (Unit {0})) (s : Session)
      → P (m s).1
      → P (failed (m s).1).1
      → ((a : A) → (m s).0 ≡ ok a → P (k a (m s).1).1)
      → P (catch m failed k s).1
  catch-lem m failed k s before refused after = go (m s).0 refl
    where
      go : (o : Outcome _) → (m s).0 ≡ o → P (catch m failed k s).1
      go (ok a) e = rw (e, catch) (after a e)
      go (err f) e = rw (e, catch) refused
      go panic e = rw (e, catch) before

abbrev pub Keeps : {A : Type 0} → Exec Session A → Type 0
Keeps m = (s : Session) → (m s).1.daemon ≡ s.daemon

bind-Keeps :
    {A B : Type 0} (m : Exec Session A) (k : A → Exec Session B)
    → Keeps m
    → ((a : A) → Keeps (k a))
    → Keeps (m >>= k)
bind-Keeps m k first rest s = go (m s).0 refl
  where
    go : (o : Outcome _) → (m s).0 ≡ o → ((m >>= k) s).1.daemon ≡ s.daemon
    go (ok a) e = rw e (rest a (m s).1 ∙ first s)
    go (err f) e = rw e (first s)
    go panic e = rw e (first s)

module _ (z : Zstd) (f : Formats) where
  read_blocks-Keeps : (id : Bytes) (n : ℕ) → Keeps (read_blocks z f id n)
  unfolding read_blocks
  read_blocks-Keeps id zero = λ s. refl
  read_blocks-Keeps id (suc n) =
      bind-Keeps (on_conn (read_bytes z))
        (λ buf. do
          on_blobs (append_blob id buf)
          say_now z f (codes "block_ok")
          read_blocks z f id n)
        (λ s. refl)
        (λ buf.
          bind-Keeps (on_blobs (append_blob id buf))
            (λ u. do say_now z f (codes "block_ok"); read_blocks z f id n) (λ s. refl)
            (λ u.
              bind-Keeps (say_now z f (codes "block_ok")) (λ v. read_blocks z f id n) (λ s. refl)
                (λ v. read_blocks-Keeps id n)))

  or_remove-Keeps :
      (id : Bytes) (m : Exec Session (Unit {0})) → Keeps m → Keeps (or_remove z f id m)
  unfolding or_remove
  or_remove-Keeps id m h s = go (m s).0 refl
    where
      go : (o : Outcome _) → (m s).0 ≡ o → (or_remove z f id m s).1.daemon ≡ s.daemon
      go (ok a) e = rw (e, or_remove) (h s)
      go (err g) e = rw (e, or_remove) (h s)
      go panic e = rw (e, or_remove) (h s)

  read_file-Keeps : (id : Bytes) (n : ℕ) → Keeps (read_file z f id n)
  unfolding read_file
  read_file-Keeps id n =
      or_remove-Keeps id
        (do on_blobs (append_blob id []); read_blocks z f id n; say_now z f (codes "blob_ok"))
        (bind-Keeps (on_blobs (append_blob id []))
          (λ u. do read_blocks z f id n; say_now z f (codes "blob_ok")) (λ s. refl)
          (λ u.
            bind-Keeps (read_blocks z f id n) (λ v. say_now z f (codes "blob_ok"))
              (read_blocks-Keeps id n) (λ v s. refl)))

  read_opened-Keeps : (id : Bytes) (b : Bool) (n : ℕ) → Keeps (read_opened z f id b n)
  unfolding read_opened
  read_opened-Keeps id true n = read_file-Keeps id n
  read_opened-Keeps id false n = λ s. refl

  read_each-Keeps : (ids : List Bytes) → Keeps (read_each z f ids)
  unfolding read_each
  read_each-Keeps [] = λ s. refl
  read_each-Keeps (id ∷ ids) =
      bind-Keeps (on_conn (read_int z))
        (λ n. do read_opened z f id (f.can_open id) n; read_each z f ids) (λ s. refl)
        (λ n.
          bind-Keeps (read_opened z f id (f.can_open id) n) (λ u. read_each z f ids)
            (read_opened-Keeps id (f.can_open id) n) (λ u. read_each-Keeps ids))

  pub read_blobs-Keeps : Keeps (read_blobs z f)
  unfolding read_blobs read_slice
  read_blobs-Keeps =
      bind-Keeps (read_slice z f f.ids_of) (read_each z f) (λ s. refl) read_each-Keeps
