-- ===== src/Daemon/Slices.antt =====
-- The loops over the slices of internal/daemon/util.go: the first match, and its removal.
pub mod Laws
use onionmsg.Base.{
  ℕ, ◌-◌, zero, suc, Bool, true, false, ◌&&◌, ltb, if◌then◌else◌, List, [], ◌∷◌, ◌++◌, map, take,
  drop, length, Option, none, some, Bytes, same, Outcome, Error, ok, err, panic, room_not_found,
  request_not_found, malformed_uuid,
}
use onionmsg.Base

-- A loop that returns the first match.
unfoldable pub find_first : {A : Type 0} → (A → Bool) → List A → Option A
find_first p [] = none
find_first p (x ∷ xs) = if p x then some x else find_first p xs

unfoldable pub last_of : {A : Type 0} → A → List A → A
last_of x [] = x
last_of x (y ∷ ys) = last_of y ys

unfoldable pub all_but_last : {A : Type 0} → A → List A → List A
all_but_last x [] = []
all_but_last x (y ∷ ys) = x ∷ all_but_last y ys

-- What follows a place that the last element takes, with the list cut by one.
unfoldable pub fill_with_last : {A : Type 0} → List A → List A
fill_with_last [] = []
fill_with_last (y ∷ ys) = last_of y ys ∷ all_but_last y ys

-- The loop that swaps the first match with the last element and shortens the slice.
unfoldable pub swap_remove : {A : Type 0} → (A → Bool) → List A → List A
unfolding fill_with_last last_of all_but_last
swap_remove p [] = []
swap_remove p (x ∷ xs) = if p x then fill_with_last xs else x ∷ swap_remove p xs

-- A write through a pointer to the first match.
unfoldable pub write_first : {A : Type 0} → (A → Bool) → A → List A → List A
write_first p new [] = []
write_first p new (x ∷ xs) = if p x then new ∷ xs else x ∷ write_first p new xs
