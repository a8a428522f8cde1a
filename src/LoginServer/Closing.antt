-- ===== src/LoginServer/Closing.antt =====
-- loginServer/lib/IOCP netServer/network.cpp: the whole of `deleteSession`, with `bufferClear` and the
-- login server's `OnDisconnect` (loginServer/loginServer.cpp), by a thread whose exchange of `IOcount`
-- is not between those of others.
use login_server.Base.{
  true, ℕ, ◌-◌, ◌^◌, ◌≡◌, ◌≢◌, ◌≤◌, ◌<◌, refl, Option, some, none, List, [], ◌∷◌, ◌++◌, length,
  count, if◌then◌else◌, ◌>>=◌,
}
use login_server.Ring.{clear, empty as ring_empty}
use login_server.Ring.Index.{empty-clear}
use login_server.Packet.{Store}
use login_server.Session.{Session}
use login_server.Session.Send.{buffer_clear}
use login_server.Session.Send.Pointers.{Carries, AllAddresses}
use login_server.Session.Send.Cycle.{buffer_clear_lem}
use login_server.Network.{try_release, get_index}
use login_server.LoginServer.{ConnectionMap, lookup, on_disconnect}
use login_server.LoginServer.Timeout.{IsMap, connections_lem}

-- What `deleteSession` changes.
pub record Closing : Type 0 where
  pub session : Session
  pub store : Store
  pub index_stack : List ℕ
  pub connections : ConnectionMap

unfoldable pub close_session : ℕ → Closing → Option Closing
unfolding try_release
close_session fuel x =
    let (released, s) = try_release x.session in
    let closing = buffer_clear fuel x.store s >>= λ (st, t). some (record {
      session = t;
      store = st;
      index_stack = get_index x.session.id ∷ x.index_stack;
      connections = on_disconnect x.session.id x.connections;
    }) in
    if released then closing else some x

-- The references that the session's packets have, as `bufferClear` needs them: of the packets `ps` in
-- the ring of those under way, and of those queued.
pub record IsOwner (x : Closing) (ps : List ℕ) : Type 0 where
  pub carries : Carries x.session.sended_buffer ps
  pub addresses : AllAddresses ps
  pub narrow : (a : ℕ) → (x.store.cell a).reference_counter < 2 ^ 32
  pub owned : (a : ℕ) → count a (x.session.send_buffer ++ ps) ≤ (x.store.cell a).reference_counter

-- A session whose count is 0, in a connection map in which each number stands once: `deleteSession`
-- ends, sets bit 31 of the count, empties its three
-- buffers, gives up one reference for each time that a
-- packet is queued or under way, pushes the session's index and takes its number, and no other, out
-- of the connection map; a second call after it changes nothing.
pub close_session-released :
    (x : Closing) (ps : List ℕ) (fuel : ℕ)
    → x.session.io_count ≡ 0
    → IsMap x.connections
    → IsOwner x ps
    → length ps < fuel
    → (y : Closing) × (close_session fuel x ≡ some y)
      × (y.session.io_count ≡ 2 ^ 31)
      × (y.session.send_buffer ≡ [])
      × Carries y.session.sended_buffer []
      × (ring_empty y.session.recv_buffer ≡ true)
      × ((a : ℕ)
          → (y.store.cell a).reference_counter
            ≡ (x.store.cell a).reference_counter - count a (x.session.send_buffer ++ ps))
      × (y.index_stack ≡ get_index x.session.id ∷ x.index_stack)
      × (lookup x.session.id y.connections ≡ none)
      × ((k : ℕ) → k ≢ x.session.id → lookup k y.connections ≡ lookup k x.connections)
      × (close_session fuel y ≡ some y)
unfolding close_session try_release
close_session-released x ps fuel idle v o enough =
    let s = record x.session { io_count = 2 ^ 31 } in
    let (t, r, clears, c, counters) =
      buffer_clear_lem x.store s ps o.carries o.addresses o.narrow o.owned fuel enough in
    let (on_map, off_map, found, lost, others) = connections_lem x.connections v x.session.id 0 in
    (
      record {
        session = record s {
          send_buffer = [];
          sended_buffer = r;
          recv_buffer = clear s.recv_buffer;
        };
        store = t;
        index_stack = get_index x.session.id ∷ x.index_stack;
        connections = on_disconnect x.session.id x.connections;
      },
      rw (idle, clears) refl,
      refl,
      refl,
      c,
      empty-clear x.session.recv_buffer,
      counters,
      refl,
      lost,
      λ k other. (others k other).1,
      refl,
    )
