-- ===== src/SyncMap/Laws.antt =====
-- The laws of the map, of its copy and of its comparison.
use onionmsg.Base.{
  ℕ, true, if◌then◌else◌, [], ◌∷◌, none, some, Bytes, same, same_iff, same_refl, ◌≡◌, ◌↔◌, refl,
  arith,
}
use onionmsg.SyncMap.{SyncMap, lookup, insert, IsMap, copy_sync_map, sync_maps_equal}

pub lookup-insert :
    (k j : Bytes) (t : ℕ) (m : SyncMap)
    → lookup j (insert k t m) ≡ (if same k j then some t else lookup j m)
unfolding lookup insert
lookup-insert k j t [] = refl
lookup-insert k j t ((i, u) ∷ m) =
    ground (arith, same_iff k j, same_iff i k, same_iff i j, lookup-insert k j t m)

pub insert-IsMap : (k : Bytes) (t : ℕ) (m : SyncMap) → IsMap m → IsMap (insert k t m)
unfolding insert lookup
insert-IsMap k t [] h = (refl, tt)
insert-IsMap k t ((i, u) ∷ m) h =
    ground (arith, same_iff i k, same_iff k i, insert-IsMap k t m h.1, lookup-insert k i t m)

pub lookup-copy_sync_map : (k : Bytes) (m : SyncMap) → lookup k (copy_sync_map m) ≡ lookup k m
unfolding copy_sync_map lookup
lookup-copy_sync_map k [] = refl
lookup-copy_sync_map k ((i, t) ∷ m) =
    ground (arith, lookup-insert i k t (copy_sync_map m), lookup-copy_sync_map k m)

pub copy_sync_map-IsMap : (m : SyncMap) → IsMap (copy_sync_map m)
unfolding copy_sync_map
copy_sync_map-IsMap [] = tt
copy_sync_map-IsMap ((i, t) ∷ m) = insert-IsMap i t (copy_sync_map m) (copy_sync_map-IsMap m)

-- What the comparison means: every time of the first map is the time in the second.
abbrev pub Within : SyncMap → SyncMap → Type 0
Within map1 map2 = (k : Bytes) (t : ℕ) → lookup k map1 ≡ some t → lookup k map2 ≡ some t

lookup-of-equal :
    (map1 map2 : SyncMap) (k : Bytes) (t : ℕ)
    → sync_maps_equal map1 map2 ≡ true
    → lookup k map1 ≡ some t
    → lookup k map2 ≡ some t
unfolding sync_maps_equal lookup
lookup-of-equal [] map2 k t h e = ground arith
lookup-of-equal ((i, v) ∷ map1) map2 k t h e =
    ground (arith, same_iff i k, lookup-of-equal map1 map2 k t)

Within-tail :
    (i : Bytes) (v : ℕ) (map1 map2 : SyncMap)
    → lookup i map1 ≡ none
    → Within ((i, v) ∷ map1) map2
    → Within map1 map2
unfolding lookup
Within-tail i v map1 map2 h w k t e = ground (arith, same_iff i k, w k t)

equal-of-Within :
    (map1 map2 : SyncMap) → IsMap map1 → Within map1 map2 → sync_maps_equal map1 map2 ≡ true
unfolding sync_maps_equal lookup
equal-of-Within [] map2 h w = refl
equal-of-Within ((i, v) ∷ map1) map2 h w =
    ground
      (arith, w i v, same_refl i, equal-of-Within map1 map2 h.1 (Within-tail i v map1 map2 h.0 w))

-- For a map with distinct keys, the comparison answers true exactly when every sender of the first
-- map has the same time in the second.
pub sync_maps_equal_iff :
    (map1 map2 : SyncMap) → IsMap map1 → (sync_maps_equal map1 map2 ≡ true) ↔ Within map1 map2
sync_maps_equal_iff map1 map2 h =
    (λ e k t. lookup-of-equal map1 map2 k t e, equal-of-Within map1 map2 h)
