-- ===== src/Tor/Binary.antt =====
-- pkg/tor/binary_utils.go: what the Tor binary says of itself. `exec` is `exec.Command` of the binary
-- with `Output`, given the arguments.
use onionmsg.Base.{
  ℕ, ◌-◌, Bool, ◌==◌, leb, if◌then◌else◌, List, [], ◌∷◌, Bytes, codes, length, take, drop, split,
  trim, less, Outcome, ok, err, panic, ◌>>=◌, tor_version_unknown, tor_too_old,
}

abbrev pub newline : ℕ
newline = 10

abbrev pub space : ℕ
space = 32

abbrev pub is_newline : ℕ → Bool
is_newline c = c == newline

-- The first piece of a split, which always has one.
unfoldable pub first_of : List Bytes → Bytes
first_of [] = []
first_of (s ∷ rest) = s

-- `raw[12 : len(raw)-1]`
unfoldable pub behind_title : Bytes → Outcome Bytes
behind_title raw = if leb 13 (length raw) then ok (drop 12 (take (length raw - 1) raw)) else panic

abbrev pub min_tor_version : Bytes
min_tor_version = codes "0.3.3.6"

module _ (exec : List Bytes → Outcome Bytes) where
  unfoldable pub get_execution_output : List Bytes → Outcome Bytes
  get_execution_output args = do r ← exec args; ok (trim is_newline r)

  -- What stands before the first line break, or the whole, is the first piece at line breaks.
  unfoldable pub version_from_binary : Outcome Bytes
  unfolding get_execution_output first_of behind_title
  version_from_binary = do
    raw ← get_execution_output (codes "--version" ∷ [])
    version ← behind_title (first_of (split newline raw))
    ok (first_of (split space version))

  unfoldable pub pw_hash_from_binary : Bytes → Outcome Bytes
  unfolding get_execution_output
  pw_hash_from_binary pw = get_execution_output (codes "--hash-password" ∷ pw ∷ [])

  unfoldable pub judged : Outcome Bytes → Outcome (Unit {0})
  judged (ok version) = if less version min_tor_version then err (tor_too_old version) else ok tt
  judged (err e) = err tor_version_unknown
  judged panic = panic

  unfoldable pub check_tor_v3_support : Outcome (Unit {0})
  unfolding judged
  check_tor_v3_support = judged version_from_binary
