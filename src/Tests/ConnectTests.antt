-- ===== src/Tests/ConnectTests.antt =====
-- A MySQL server that refuses two connections, and one whose connection is lost.
use login_server.Base.{◌-◌, ◌≡◌, refl, arith, true, false, ◌&&◌, none, some, List, [], ◌∷◌, ◌==◌}
use login_server.Database.{Text, Row}
use login_server.Database.Connect.{
  Client, IsClient, Standing, IsServer, Connector, query, query-ends, query-closed,
}

abbrev key : Text
key = 97 ∷ 98 ∷ []

-- The client of that server. A structure that is not prepared does not connect.
abbrev client : Client Standing
client = record {
  real_connect = λ c.
      let ok = c.ready && (c.refusals == 0) in
      (ok, record c { refusals = c.refusals - 1; stands = ok });
  ask = λ t c. (c.stands, c);
  close = λ c. record c { ready = false; stands = false };
  initialize = λ c. record c { ready = true };
  store_result = λ c. ((some key ∷ []) ∷ [], c);
}

abbrev answer : Text → List Row
answer text = (some key ∷ []) ∷ []

client-IsServer : IsServer client (λ c. c) answer
client-IsServer = record {
  inits = λ c. refl;
  closes = λ c. refl;
  refuses = λ c n ready more. (ground (arith, ready, more), omega (arith, more));
  connects = λ c ready no_more. (ground (arith, ready, no_more), ground (arith, ready, no_more));
  answers = λ text c stands. (stands, stands, refl);
}

abbrev unconnected : Connector Standing
unconnected = record {
  made = false;
  connected = false;
  handle = record { refusals = 2; ready = false; stands = false };
}

query-ends_example :
    (y : Connector Standing) × (query client 4 [] ([] ∷ []) unconnected ≡ some (key ∷ [], y))
    × (y.connected ≡ true)
query-ends_example =
    query-ends client (λ c. c) answer client-IsServer 4 [] (key ∷ []) ([] ∷ []) unconnected refl
      (omega arith) refl (omega arith) refl

abbrev lost : Connector Standing
lost = record {
  made = true;
  connected = true;
  handle = record { refusals = 0; ready = true; stands = false };
}

client-IsClient : IsClient client
client-IsClient text c = refl

query-closed_example : query client 100 key ([] ∷ []) lost ≡ none
query-closed_example = query-closed client client-IsClient 100 key ([] ∷ []) lost refl refl
