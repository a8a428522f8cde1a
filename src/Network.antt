-- ===== src/Network.antt =====
-- loginServer/lib/IOCP netServer/network.h and network.cpp: how the threads share one session of the
-- array. A session is found, used and let go by counting `IOcount` up and down; the thread that
-- counts it down to 0 calls `deleteSession`, which releases the session only by exchanging 0 for
-- bit 31; `acceptThread` takes a released session's index from the stack and opens it again. Each
-- interlocked operation is a step of its own, in any order among the threads.
pub mod Release
pub mod Lookup
pub mod Ids
pub mod Requests
pub mod Worker
pub mod Post
pub mod Array
pub mod Report
use login_server.Base.{
  ℕ, ◌+◌, ◌-◌, ◌^◌, ◌≡◌, ◌<◌, Bool, true, false, ◌==◌, leb, if◌then◌else◌, bit_or, bit_and, ◌*◌,
  ◌%◌,
}
use login_server.Session.{Session, increment_io, decrement_io, init_fields, init_open}

-- A session of the array with what the threads are doing to it: how many references are held (by
-- `findSession`, by requests under way and by `acceptThread`), how many threads have counted it down
-- to 0 and are about to call `deleteSession`, how often its index is on `indexStack`, and whether
-- (1 or 0) `acceptThread` is inside `init`.
pub record Slot : Type 0 where
  pub session : Session
  pub holders : ℕ
  pub deleters : ℕ
  pub stacked : ℕ
  pub opening : ℕ

-- The `InterlockedCompareExchange` of `deleteSession`, and whether it goes on after it.
unfoldable pub try_release : Session → Bool × Session
try_release s = if s.io_count == 0 then (true, record s { io_count = 2 ^ 31 }) else (false, s)

-- `incrementIO`, by `findSession`, `sendReq`, `sendIO` or `recvIO`
unfoldable pub acquire : Slot → Slot
acquire x = record x { session = (increment_io x.session).1; holders = x.holders + 1 }

-- `if (decrementIO() == 0) deleteSession(...)`, up to the call
unfoldable pub let_go : Slot → Slot
let_go x =
    let (n, s) = decrement_io x.session in
    record x {
      session = s;
      holders = x.holders - 1;
      deleters = if n == 0 then x.deleters + 1 else x.deleters;
    }

-- `deleteSession` of a session that was opened, whose number says its own index: when the exchange
-- succeeds, the index goes to the stack. The exchange and the locked push are taken as one step;
-- between them the count has bit 31 and the index is not on the stack yet.
unfoldable pub delete_session : Slot → Slot
delete_session x =
    let (released, s) = try_release x.session in
    record x {
      session = s;
      deleters = x.deleters - 1;
      stacked = if released then x.stacked + 1 else x.stacked;
    }

-- `acceptThread`: the index is taken from the stack, and `init` begins and ends.
unfoldable pub begin_init : Slot → ℕ → ℕ → ℕ → ℕ → Slot
begin_init x id sock port ip = record x {
  session = init_fields x.session id sock port ip;
  holders = x.holders + 1;
  stacked = x.stacked - 1;
  opening = 1;
}

unfoldable pub end_init : Slot → Slot
end_init x = record x { session = init_open x.session; opening = 0 }

-- One step of any thread. A thread lets go only what it holds, and `acceptThread` nothing before
-- `init` has ended; that there are fewer than 2 ^ 31 references is the bound of the count.
pub data Step : Slot → Slot → Type 0 where
  acquires : (x : Slot) → x.holders + 1 < 2 ^ 31 → Step x (acquire x)
  lets_go : (x : Slot) → x.opening < x.holders → Step x (let_go x)
  deletes : (x : Slot) → 0 < x.deleters → Step x (delete_session x)
  begins :
      (x : Slot) (id sock port ip : ℕ)
      → 0 < x.stacked
      → x.opening ≡ 0
      → x.holders + 1 < 2 ^ 31
      → Step x (begin_init x id sock port ip)
  ends : (x : Slot) → x.opening ≡ 1 → Step x (end_init x)

pub data Steps : Slot → Slot → Type 0 where
  done : (x : Slot) → Steps x x
  then_step : {x y z : Slot} → Steps x y → Step y z → Steps x z

-- `if (decrementIO() == 0) deleteSession(...)`, by a thread that no other one interrupts
unfoldable pub leave : Slot → Slot
leave x = let y = let_go x in if y.session.io_count == 0 then delete_session y else y

-- `findSession`, for the session of the array at the index of `id`; false is a null pointer.
unfoldable pub find_session : Slot → ℕ → Bool × Slot
find_session x id =
    let y = acquire x in
    if leb (2 ^ 31) y.session.io_count
    then (false, leave y)
    else if y.session.id == id
    then (true, y)
    else (false, leave y)

-- `MAKE_SESSION_ID`: a `UINT32` count, of which 16 bits stay in the 64, over an index of 16 bits; and
-- `GET_INDEX`.
unfoldable pub make_session_id : ℕ → ℕ → ℕ
make_session_id session_count index = bit_or index (session_count * 2 ^ 48 % 2 ^ 64)

unfoldable pub get_index : ℕ → ℕ
get_index session_id = session_id % 2 ^ 16

-- `reqEvents`, in the bits of `reqFilter` above a packet's address.
pub data ReqEvents : Type 0 where
  not_define : ReqEvents
  send_req : ReqEvents
  disconnect_req : ReqEvents

abbrev pub req_filter : ℕ
req_filter = 0xF000000000000000

abbrev pub event_value : ReqEvents → ℕ
event_value not_define = 0
event_value send_req = 0x4000000000000000
event_value disconnect_req = 0x8000000000000000

unfoldable pub request_check : ℕ → ReqEvents
request_check overlapped =
    let req_stamp = bit_and overlapped req_filter in
    if req_stamp == event_value send_req
    then send_req
    else if req_stamp == event_value disconnect_req
    then disconnect_req
    else not_define

-- `reqValue` of `sendReq`, and `_packet` of `workerThread`: `~reqFilter` in 64 bits
unfoldable pub req_value : ℕ → ℕ
req_value packet = bit_or packet (event_value send_req)

unfoldable pub packet_of : ℕ → ℕ
packet_of overlapped = bit_and overlapped (2 ^ 64 - 1 - req_filter)
