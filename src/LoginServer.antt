-- ===== src/LoginServer.antt =====
-- loginServer/loginServer.h and loginServer.cpp: the connections of the login server and the thread
-- that ends those which have been open for too long. `connectionMap` is a list of session numbers,
-- each with the tick at which its connection was made; the address kept with it is only stored.
pub mod Timeout
pub mod Login
pub mod Closing
use login_server.Base.{
  ℕ, ◌+◌, ◌-◌, ◌%◌, ◌^◌, Bool, Option, none, some, List, [], ◌∷◌, ltb, ◌==◌, if◌then◌else◌,
}

abbrev pub ConnectionMap : Type 0
ConnectionMap = List (ℕ × ℕ)

unfoldable pub erase : ℕ → ConnectionMap → ConnectionMap
erase id [] = []
erase id ((k, t) ∷ m) = let rest = erase id m in if k == id then rest else (k, t) ∷ rest

unfoldable pub lookup : ℕ → ConnectionMap → Option ℕ
lookup id [] = none
lookup id ((k, t) ∷ m) = let rest = lookup id m in if k == id then some t else rest

-- `OnNewConnect`, where `found` says whether `findSession` found the session
unfoldable pub on_new_connect : Bool → ℕ → ℕ → ConnectionMap → ConnectionMap
on_new_connect found id tick m = if found then (id, tick) ∷ erase id m else m

unfoldable pub on_disconnect : ℕ → ConnectionMap → ConnectionMap
on_disconnect id m = erase id m

-- `currentTick - timeOutTick > timeoutThreshold`, in 64 bits
unfoldable pub timed_out : ℕ → ℕ → ℕ → Bool
timed_out timeout_threshold current_tick tick =
    ltb timeout_threshold ((current_tick + 2 ^ 64 - tick) % 2 ^ 64)

-- One round of `update`: the sessions that it asks to disconnect, in the map's order.
unfoldable pub update : ℕ → ℕ → ConnectionMap → List ℕ
update threshold current_tick [] = []
update threshold current_tick ((k, t) ∷ m) =
    let rest = update threshold current_tick m in
    if timed_out threshold current_tick t then k ∷ rest else rest
