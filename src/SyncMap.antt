-- ===== src/SyncMap.antt =====
-- `SyncMap` of internal/types/util.go: the time of the last message of each sender.
pub mod Laws
use onionmsg.Base.{
  ℕ, Bool, true, false, ◌==◌, if◌then◌else◌, ◌&&◌, List, [], ◌∷◌, Option, none, some, Bytes, same,
  ◌≡◌,
}

-- Entries have distinct keys, `IsMap` below; their order means nothing.
abbrev pub SyncMap : Type 0
SyncMap = List (Bytes × ℕ)

unfoldable pub lookup : Bytes → SyncMap → Option ℕ
lookup k [] = none
lookup k ((i, t) ∷ m) = if same i k then some t else lookup k m

unfoldable pub insert : Bytes → ℕ → SyncMap → SyncMap
insert k t [] = (k, t) ∷ []
insert k t ((i, u) ∷ m) = if same i k then (k, t) ∷ m else (i, u) ∷ insert k t m

abbrev pub IsMap : SyncMap → Type 0
IsMap [] = Unit {0}
IsMap ((i, t) ∷ m) = (lookup i m ≡ none) × IsMap m

-- The loop over the map may run in any order; here the last entry comes first.
unfoldable pub copy_sync_map : SyncMap → SyncMap
copy_sync_map [] = []
copy_sync_map ((k, v) ∷ m) = insert k v (copy_sync_map m)

abbrev same_time : Option ℕ → ℕ → Bool
same_time none v = false
same_time (some t) v = t == v

-- Every entry of the first map is in the second.
unfoldable pub sync_maps_equal : SyncMap → SyncMap → Bool
sync_maps_equal [] map2 = true
sync_maps_equal ((k, v) ∷ map1) map2 = same_time (lookup k map2) v && sync_maps_equal map1 map2
