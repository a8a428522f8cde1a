-- ===== src/Tests/LoginServerTests.antt =====
-- The connections of loginServer/loginServer.cpp: three sessions with a threshold of 10 seconds.
use login_server.Base.{ℕ, arith, ◌<◌, ◌^◌, ◌↔◌, ◌≡◌, refl, true, some, [], ◌∷◌}
use login_server.Base.Results.{of_Always}
use login_server.LoginServer.{ConnectionMap, lookup, timed_out, update}
use login_server.LoginServer.Timeout.{IsMap, contains, Overdue, update_lem}

abbrev pub three : ConnectionMap
three = (7, 1000) ∷ (8, 9000) ∷ (65543, 2000) ∷ []

pub three-IsMap : IsMap three
unfolding lookup
three-IsMap = (refl, (refl, (refl, tt)))

update-three : update 10000 12000 three ≡ 7 ∷ []
unfolding update timed_out
update-three = refl

update_lem_example :
    (contains 7 (update 10000 12000 three) ≡ true)
    ↔ ((t : ℕ) × (lookup 7 three ≡ some t) × Overdue 10000 12000 t)
unfolding lookup
update_lem_example =
    update_lem 10000 12000 three three-IsMap (omega arith) 7
      (λ t e. of_Always (λ k. k < 2 ^ 64) (some 1000) t (omega arith) e)

-- A connection made a second after the tick that the round has read is ended.
made_behind : update 10000 12000 ((9, 13000) ∷ []) ≡ 9 ∷ []
unfolding update timed_out
made_behind = refl
