-- ===== src/Blob.antt =====
-- pkg/blobmngr/manager.go: the files of blobs, by their ids, and the loop that fills one from a stream.
-- The file system gives no errors of its own.
pub mod Filling
use onionmsg.Base.{
  ℕ, zero, suc, List, [], ◌∷◌, ◌++◌, take, length, Option, none, some, Bytes, Outcome, ok, err,
  file_error, Error, codes,
}
use onionmsg.Exec.{Exec, raise, modify}
use onionmsg.Conn.{left_over}
use onionmsg.Conn.Stream.{joined}
use onionmsg.Daemon.Session.{Blobs, append_blob}
use onionmsg.Sync.{file_of}

prepend : Bytes → Option Bytes → Option Bytes
prepend chunk none = none
prepend chunk (some rest) = some (chunk ++ rest)

-- The loop of `writeIntoFile`, over the pieces in which the stream arrives, each read taking at most
-- 4096 bytes of one. A read of no bytes ends it, whatever its error. `none` is out of fuel.
unfoldable pub write_loop : ℕ → List Bytes → Option Bytes
unfolding prepend
write_loop zero pieces = none
write_loop (suc n) [] = some []
write_loop (suc n) ([] ∷ pieces) = some []
write_loop (suc n) ((b ∷ piece) ∷ pieces) =
    prepend (take 4096 (b ∷ piece)) (write_loop n (left_over 4096 (b ∷ piece) pieces))

-- What is written to the file.
unfoldable pub write_into_file : List Bytes → Option Bytes
unfolding write_loop
write_into_file pieces = write_loop (suc (length (joined pieces))) pieces

-- `id` is what `uuid.New` returns.
unfoldable pub save_ressource : Bytes → Bytes → Blobs → Blobs
save_ressource id blob bs = (id, blob) ∷ bs

unfoldable pub make_blob : Bytes → Blobs → Blobs
unfolding save_ressource
make_blob id bs = save_ressource id [] bs

-- What `streamTo` copies; `O_CREATE` makes the file where it is missing.
unfoldable pub stream_to : Bytes → Blobs → Bytes × Blobs
stream_to id bs = elim (file_of id bs) [ none ↦ ([], append_blob id [] bs) | some b ↦ (b, bs) ]

unfoldable pub get_ressource : Bytes → Blobs → Outcome Bytes
get_ressource id bs = elim (file_of id bs) [ none ↦ err file_error | some b ↦ ok b ]

-- What `os.Mkdir` returns.
pub data Mkdir : Type 0 where
  made exists : Mkdir
  refused : Error → Mkdir

-- `InitializeDir`, over the variable `blobdir`.
unfoldable pub initialize_dir : Bytes → Mkdir → Exec Bytes (Unit {0})
initialize_dir dir made = modify (λ old. dir)
initialize_dir dir exists = modify (λ old. dir)
initialize_dir dir (refused e) = raise e

-- `id` is the text of the id.
unfoldable pub blob_path : Bytes → Bytes → Bytes
blob_path blobdir id = blobdir ++ (codes "/" ++ (id ++ codes ".blob"))
