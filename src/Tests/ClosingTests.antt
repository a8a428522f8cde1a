-- ===== src/Tests/ClosingTests.antt =====
-- The end of a session with one packet queued and one under way.
use login_server.Base.{ℕ, ◌-◌, ◌^◌, ◌≡◌, ◌≢◌, refl, arith, true, none, some, [], ◌∷◌, count}
use login_server.Ring.{empty}
use login_server.Session.Send.Pointers.{Carries}
use login_server.Network.{get_index}
use login_server.LoginServer.{lookup}
use login_server.LoginServer.Closing.{Closing, close_session, close_session-released}
use login_server.Tests.SendTests.{store, busy, busy_ring-Carries, busy_count}
use login_server.Tests.LoginServerTests.{three, three-IsMap}

abbrev ending : Closing
ending = record {
  session = record busy { io_count = 0; id = 65543 };
  store = store;
  index_stack = 2 ∷ [];
  connections = three;
}

close_session-released_example :
    (y : Closing) × (close_session 2 ending ≡ some y)
    × (y.session.io_count ≡ 2 ^ 31)
    × (y.session.send_buffer ≡ [])
    × Carries y.session.sended_buffer []
    × (empty y.session.recv_buffer ≡ true)
    × ((a : ℕ)
        → (y.store.cell a).reference_counter
          ≡ (store.cell a).reference_counter - count a (6 ∷ 7 ∷ []))
    × (y.index_stack ≡ get_index 65543 ∷ 2 ∷ [])
    × (lookup 65543 y.connections ≡ none)
    × ((k : ℕ) → k ≢ 65543 → lookup k y.connections ≡ lookup k three)
    × (close_session 2 y ≡ some y)
close_session-released_example =
    close_session-released ending (7 ∷ []) 2 refl three-IsMap
      (record {
        carries = busy_ring-Carries;
        addresses = (omega arith, tt);
        narrow = λ a. omega arith;
        owned = busy_count;
      })
      (omega arith)
