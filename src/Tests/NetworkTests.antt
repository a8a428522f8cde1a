-- ===== src/Tests/NetworkTests.antt =====
-- The sharing of a session in loginServer/lib/IOCP netServer/network.cpp, from its first connection on.
use login_server.Base.{ℕ, ◌^◌, ◌%◌, ◌≡◌, ◌↔◌, refl, true, arith, replicate, []}
use login_server.Ring.{Ring}
use login_server.Session.{Session, init_fields, init_open, increment_io, decrement_io}
use login_server.Network.{
  Slot, Steps, begin_init, end_init, try_release, done, then_step, lets_go, deletes, let_go,
  delete_session, find_session, make_session_id,
}
use login_server.Network.Release.{
  IsSound, Steps-IsSound, first_open, first_open-IsSound, idle-stacked, find_session-open,
}
use login_server.Network.Ids.{make_session_id-same}

abbrev no_ring : Ring
no_ring = record {
  buffer_size = 1;
  max_size = 0;
  buffer = replicate 1 0;
  head_ptr = 0;
  tail_ptr = 0;
}

abbrev pub blank : Session
blank = record {
  id = 0;
  socket = 0;
  port = 0;
  ip = 0;
  send_flag = 0;
  io_count = 0;
  cancel_io_flag = 0;
  send_buffer = [];
  sended_buffer = no_ring;
  recv_buffer = no_ring;
}

-- The first connection of index 5, as number 5.
abbrev opened : Slot
opened = first_open blank 5 80 9000 1

opened-IsSound : IsSound opened
opened-IsSound = first_open-IsSound blank 5 80 9000 1

-- `acceptThread` lets it go: nothing else holds it, so it is deleted.
abbrev closed : Slot
closed = delete_session (let_go opened)

to_closed : Steps opened closed
unfolding begin_init end_init init_fields init_open increment_io decrement_io let_go
to_closed =
    then_step (then_step (done opened) (lets_go opened (omega arith)))
      (deletes (let_go opened) (omega arith))

closed-IsSound : IsSound closed
closed-IsSound = Steps-IsSound opened-IsSound to_closed

Steps-IsSound_example : IsSound closed
Steps-IsSound_example = Steps-IsSound opened-IsSound to_closed

idle-stacked_example : (closed.stacked ≡ 1) × (closed.opening ≡ 0)
unfolding begin_init end_init init_fields init_open increment_io decrement_io let_go delete_session
    try_release
idle-stacked_example = idle-stacked blank 5 80 9000 1 to_closed refl refl

to_let_go : Steps opened (let_go opened)
unfolding begin_init end_init init_fields init_open increment_io decrement_io let_go
to_let_go = then_step (done opened) (lets_go opened (omega arith))

find_session-open_example :
    ((find_session opened 5).0 ≡ true)
    ↔ ((opened.stacked ≡ 0) × (opened.opening ≡ 0) × (opened.session.id ≡ 5))
unfolding begin_init end_init init_fields init_open increment_io
find_session-open_example = find_session-open blank 5 80 9000 1 (done opened) (omega arith) 5

abbrev index : ℕ
index = 5

make_session_id-same_example :
    (make_session_id 0 index ≡ make_session_id 65536 index)
    ↔ ((index ≡ index) × (0 % 2 ^ 16 ≡ 65536 % 2 ^ 16))
make_session_id-same_example = make_session_id-same 0 index 65536 index (omega arith) (omega arith)
