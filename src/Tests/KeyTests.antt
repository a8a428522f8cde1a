-- ===== src/Tests/KeyTests.antt =====
-- The session key of account 12, for which a thread's client is made.
use login_server.Base.{ℕ, ◌≡◌, ◌≢◌, ◌<◌, ◌^◌, refl, arith, false, none, some, [], ◌∷◌, replicate}
use login_server.Redis.{Text, get}
use login_server.Redis.Store.{store_of}
use login_server.LoginServer.Login.{Handled}
use login_server.LoginServer.Login.Key.{to_string, decimal, redis_update, redis_update-get}
use login_server.Tests.RedisTests.{client, client-IsClient}

abbrev handled : Handled
handled = record {
  asked = some 12;
  stored = some (12, replicate 64 97);
  answer = none;
  disconnects = false;
}

twelve : to_string 12 ≡ 49 ∷ 50 ∷ []
unfolding to_string decimal
twelve = refl

redis_update-get_example :
    ((get client (to_string 12) [] (redis_update client handled.stored none)).0 ≡ replicate 64 97)
    × ((other : ℕ) (kept : Text)
        → other < 2 ^ 64
        → other ≢ 12
        → store_of client (λ v. v) client-IsClient none (to_string other) ≡ some kept
        → (get client (to_string other) [] (redis_update client handled.stored none)).0 ≡ kept)
redis_update-get_example =
    redis_update-get client (λ v. v) client-IsClient handled 12 (replicate 64 97) [] none tt
      (omega arith) refl
