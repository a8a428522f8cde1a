-- ===== src/Redis.antt =====
-- loginServer/lib/redis connector/redisConnector.h and redisConnector.cpp: `get`, `set` and
-- `disconnect` over the client of a thread, which is made and connected at its first use. The client is
-- an interface: a state of type `C` with the functions of cpp_redis that the connector calls.
pub mod Store
use login_server.Base.{ℕ, Option, none, some, List, [], ◌∷◌, ◌==◌, if◌then◌else◌}

abbrev pub Text : Type 0
Text = List ℕ

-- What a client has to send: `get`, `set` and `expire` note a command, and `sync_commit` sends the
-- commands noted and gives the texts that the server replies to the `get`s, in order.
pub record Client (C : Type 0) : Type 0 where
  pub made : C
  pub connect : C → C
  pub note_get : Text → C → C
  pub note_set : Text → Text → C → C
  pub note_expire : Text → ℕ → C → C
  pub sync_commit : C → List Text × C
  pub disconnect : C → C

-- The callback of `get`, for each reply.
unfoldable pub take_replies : Text → List Text → Text
take_replies value [] = value
take_replies value (reply ∷ replies) = take_replies reply replies

module _ {C : Type 0} (client : Client C) where
  -- `TLSRedisClient`, made and connected where it is null.
  unfoldable pub opened : Option C → C
  opened none = client.connect client.made
  opened (some c) = c

  -- `get`, with what `_value` holds before it and after it.
  unfoldable pub get : Text → Text → Option C → Text × Option C
  unfolding opened
  get field value x =
      let (replies, c) = client.sync_commit (client.note_get field (opened x)) in
      (take_replies value replies, some c)

  -- For an expiry that is not negative.
  unfoldable pub set : Text → Text → ℕ → Option C → Option C
  unfolding opened
  set field value expire x =
      let c = client.note_set field value (opened x) in
      let d = if expire == 0 then c else client.note_expire field expire c in
      some (client.sync_commit d).1

  unfoldable pub disconnect : Option C → Option C
  disconnect none = none
  disconnect (some c) = some (client.disconnect c)
