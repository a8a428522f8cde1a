-- ===== src/Database/Connect.antt =====
-- loginServer/lib/mysql connector/mysqlConnector.cpp: how `query` connects, asks and reads the answer.
-- The MySQL client is an interface: a state of type `C` with the functions of its library that the
-- connector calls.
use login_server.Base.{
  ℕ, zero, suc, ◌≡◌, ◌<◌, refl, ap, ◌∙◌, arith, Bool, true, false, Bool-cases, inl, inr, [], ◌∷◌,
  length, Option, none, some, List, if◌then◌else◌, ◌>>=◌,
}
use login_server.Database.{Text, Row, query_rows}
use login_server.Database.Rows.{full, query_rows-test_rows}

-- `mysql_real_connect` and `mysql_query`, with whether they succeed; `mysql_close` and `mysql_init`;
-- and the rows from `mysql_store_result` to `mysql_free_result`.
pub record Client (C : Type 0) : Type 0 where
  pub real_connect : C → Bool × C
  pub ask : Text → C → Bool × C
  pub close : C → C
  pub initialize : C → C
  pub store_result : C → List Row × C

-- A connection that was closed takes no query.
abbrev pub IsClient : {C : Type 0} → Client C → Type 0
IsClient {C} client = (text : Text) (c : C) → (client.ask text (client.close c)).0 ≡ false

-- Where a client is: how many connections the server will still refuse, whether `mysql_init` has
-- prepared the structure that is to connect, and whether it is connected.
pub record Standing : Type 0 where
  pub refusals : ℕ
  pub ready : Bool
  pub stands : Bool

-- A server that refuses so many connections, and then takes each query and has these rows for it. Only
-- a structure that is prepared connects.
pub record IsServer {C : Type 0} (client : Client C) (view : C → Standing)
    (answer : Text → List Row) : Type 0 where
  pub inits : (c : C) → view (client.initialize c) ≡ record (view c) { ready = true }
  pub closes : (c : C) → view (client.close c) ≡ record (view c) { ready = false; stands = false }
  pub refuses :
      (c : C) (n : ℕ)
      → (view c).ready ≡ true
      → (view c).refusals ≡ suc n
      → ((client.real_connect c).0 ≡ false) × ((view (client.real_connect c).1).refusals ≡ n)
  pub connects :
      (c : C)
      → (view c).ready ≡ true
      → (view c).refusals ≡ 0
      → ((client.real_connect c).0 ≡ true) × ((view (client.real_connect c).1).stands ≡ true)
  pub answers :
      (text : Text) (c : C)
      → (view c).stands ≡ true
      → ((client.ask text c).0 ≡ true)
        × ((view (client.ask text c).1).stands ≡ true)
        × ((client.store_result (client.ask text c).1).0 ≡ answer text)

-- The connector of a thread: whether `conn` is made and whether `mysqlConnect` is set.
pub record Connector (C : Type 0) : Type 0 where
  pub made : Bool
  pub connected : Bool
  pub handle : C

module _ {C : Type 0} (client : Client C) where
  unfoldable pub init : Connector C → Connector C
  init x = record x {
    made = true;
    handle = client.initialize (if x.made then client.close x.handle else x.handle);
  }

  -- One round of the loop of `query` that connects.
  unfoldable pub try_connect : Connector C → Connector C
  unfolding init
  try_connect x =
      let (ok, c) = client.real_connect (init x).handle in
      record (init x) { connected = ok; handle = c }

  -- The loops of `query`, on fuel: the connection it has, and the query's.
  unfoldable pub connect_loop : ℕ → Connector C → Option (Connector C)
  connect_loop zero x = none
  connect_loop (suc fuel) x =
      let again = connect_loop fuel (try_connect x) in if x.connected then some x else again

  unfoldable pub ask_loop : ℕ → Text → Connector C → Option (Connector C)
  ask_loop zero text x = none
  ask_loop (suc fuel) text x = connect_loop (suc fuel) x >>= λ y.
      let (ok, c) = client.ask text y.handle in
      let again = ask_loop fuel text (record y { handle = client.close c }) in
      if ok then some (record y { handle = c }) else again

  unfoldable pub query : ℕ → Text → List Text → Connector C → Option (List Text × Connector C)
  query fuel text fields x = ask_loop fuel text x >>= λ y.
      let (rows, c) = client.store_result y.handle in
      query_rows rows 0 fields >>= λ texts. some (texts, record y { handle = c })

  connect_loop-out :
      (fuel : ℕ) (x : Connector C)
      → x.connected ≡ false
      → connect_loop (suc fuel) x ≡ connect_loop fuel (try_connect x)
  unfolding connect_loop
  connect_loop-out fuel x out =
      ap (λ b. if b then some x else connect_loop fuel (try_connect x)) out

  connect_loop-in :
      (fuel : ℕ) (x : Connector C) → x.connected ≡ true → connect_loop (suc fuel) x ≡ some x
  unfolding connect_loop
  connect_loop-in fuel x up = ap (λ b. if b then some x else connect_loop fuel (try_connect x)) up

  ask_loop-closed :
      (laws : IsClient client) (fuel : ℕ) (text : Text) (x : Connector C)
      → x.connected ≡ true
      → (client.ask text x.handle).0 ≡ false
      → ask_loop fuel text x ≡ none
  unfolding ask_loop connect_loop
  ask_loop-closed laws zero text x stands fails = refl
  ask_loop-closed laws (suc fuel) text x stands fails =
      rw (stands, fails)
        (ask_loop-closed laws fuel text
          (record x { connected = true; handle = client.close (client.ask text x.handle).1 }) refl
          (laws text (client.ask text x.handle).1))

  -- For a client of which a closed connection takes no query: once a query has failed on the
  -- connection that stands, the loop of `query` does not end, since it does not connect again.
  pub query-closed :
      (laws : IsClient client) (fuel : ℕ) (text : Text) (fields : List Text) (x : Connector C)
      → x.connected ≡ true
      → (client.ask text x.handle).0 ≡ false
      → query fuel text fields x ≡ none
  unfolding query
  query-closed laws fuel text fields x stands fails =
      rw (ask_loop-closed laws fuel text x stands fails) refl

  module _ (view : C → Standing) (answer : Text → List Row)
      (server : IsServer client view answer) where
    -- `init` prepares the structure, whatever the connector had.
    init-ready :
        (x : Connector C)
        → ((view (init x).handle).ready ≡ true)
          × ((view (init x).handle).refusals ≡ (view x.handle).refusals)
    unfolding init
    init-ready x = elim (Bool-cases x.made) [
      | inl e ↦ rw e (
        ap (λ v. v.ready) (server.inits (client.close x.handle)),
        ap (λ v. v.refusals) (server.inits (client.close x.handle))
            ∙ ap (λ v. v.refusals) (server.closes x.handle),
      )
      | inr e ↦
          rw e (
            ap (λ v. v.ready) (server.inits x.handle),
            ap (λ v. v.refusals) (server.inits x.handle),
          )
    ]

    abbrev Connected : Connector C → Type 0
    Connected x = (x.connected ≡ true) × ((view x.handle).stands ≡ true)

    connect_loop-ends :
        (n fuel : ℕ) (x : Connector C)
        → x.connected ≡ false
        → (view x.handle).refusals ≡ n
        → suc n < fuel
        → (y : Connector C) × (connect_loop fuel x ≡ some y) × Connected y
    unfolding try_connect
    connect_loop-ends n zero x out left h = absurd (omega (arith, h))
    connect_loop-ends n (suc zero) x out left h = absurd (omega (arith, h))
    connect_loop-ends zero (suc (suc fuel)) x out left h =
        let (ready, same) = init-ready x in
        let (ok, up) = server.connects (init x).handle ready (same ∙ left) in
        (
          try_connect x,
          connect_loop-out (suc fuel) x out ∙ connect_loop-in fuel (try_connect x) ok,
          (ok, up),
        )
    connect_loop-ends (suc n) (suc (suc fuel)) x out left h =
        let (ready, same) = init-ready x in
        let (no_more, less) = server.refuses (init x).handle n ready (same ∙ left) in
        let (y, steps, up) =
          connect_loop-ends n (suc fuel) (try_connect x) no_more less (omega (arith, h)) in
        (y, connect_loop-out (suc fuel) x out ∙ steps, up)

    -- From a connector that is not connected, with at least one field, for a server that refuses fewer
    -- connections than there is fuel less one and then answers the query with one row that has a text in
    -- as many columns as there are fields: `query` ends, with these texts in the fields, and the
    -- connection stands.
    pub query-ends :
        (fuel : ℕ) (text : Text) (texts fields : List Text) (x : Connector C)
        → x.connected ≡ false
        → suc (view x.handle).refusals < fuel
        → answer text ≡ full texts ∷ []
        → 0 < length fields
        → length texts ≡ length fields
        → (y : Connector C) × (query fuel text fields x ≡ some (texts, y)) × (y.connected ≡ true)
    unfolding query ask_loop
    query-ends zero text texts fields x out h one some_field same = absurd (omega (arith, h))
    query-ends (suc fuel) text texts fields x out h one some_field same =
        let (y, connects, (up, stands)) =
          connect_loop-ends (view x.handle).refusals (suc fuel) x out refl h in
        let (takes, still, rows) = server.answers text y.handle stands in
        let reads = (query_rows-test_rows texts texts fields [] some_field same same).0 in
        (
          record y { handle = (client.store_result (client.ask text y.handle).1).1 },
          rw (connects, takes, rows, one, reads) refl,
          up,
        )
