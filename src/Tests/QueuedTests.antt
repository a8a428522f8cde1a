-- ===== src/Tests/QueuedTests.antt =====
-- The queue of a session as a `LockFreeQueue(256)`, with two packets.
use login_server.Base.{
  ℕ, zero, suc, ◌^◌, ◌≡◌, ◌<◌, refl, arith, true, some, List, [], ◌∷◌, ◌++◌, count, replicate,
  if◌then◌else◌, leb, ltb, ◌&&◌,
}
use login_server.Base.Blocks.{write_block}
use login_server.Ring.{push as ring_push, store as ring_store}
use login_server.Serializer.{size}
use login_server.Serializer.Scalars.{to_bytes}
use login_server.LockFreeQueue.{Queue, fill, init, push, make_nodeptr}
use login_server.LockFreeQueue.Init.{IsPool}
use login_server.Session.{Session}
use login_server.Session.Send.{collect_send_packet, gather}
use login_server.Session.Send.Gather.{buffers_of}
use login_server.Session.Send.Queued.{
  Holds, init-Holds, push-collect_send_packet, gather_queue, gather_queue-gather,
}
use login_server.Tests.LockFreeQueueTests.{unmade}
use login_server.Tests.SendTests.{store, session, ring, idle_ring}

-- The addresses 1 to `n`.
abbrev addresses : ℕ → List ℕ
addresses zero = []
addresses (suc n) = suc n ∷ addresses n

count-addresses : (a n : ℕ) → count a (addresses n) ≡ (if ltb 0 a && leb a n then 1 else 0)
count-addresses a zero = ground arith
count-addresses a (suc n) = ground (arith, count-addresses a n)

addresses-IsPool : (n : ℕ) → n < 2 ^ 48 → IsPool (addresses n)
addresses-IsPool n few = record {
  once = λ a. ground (arith, count-addresses a n);
  positive = λ a h. ground (arith, count-addresses a n);
  small = λ a h. ground (arith, count-addresses a n);
}

made : (r : Queue) × (init (fill unmade (addresses 256)) ≡ some r) × Holds r []
unfolding make_nodeptr
made = init-Holds unmade (addresses 256) refl refl (addresses-IsPool 256 (omega arith))

abbrev idle : Session
idle = session [] idle_ring

push-collect_send_packet_example :
    (q : Queue) × (push 1 made.0 7 ≡ some (true, q)) × Holds q (7 ∷ [])
unfolding collect_send_packet
push-collect_send_packet_example = push-collect_send_packet 0 idle 7 made.0 made.2

abbrev one : Session
one = session (7 ∷ []) idle_ring

with_one : (q : Queue) × (push 1 made.0 7 ≡ some (true, q)) × Holds q (7 ∷ [])
unfolding collect_send_packet
with_one = push-collect_send_packet 0 idle 7 made.0 made.2

with_two : (q : Queue) × (push 1 with_one.0 6 ≡ some (true, q)) × Holds q (7 ∷ 6 ∷ [])
unfolding collect_send_packet
with_two = push-collect_send_packet 0 one 6 with_one.0 with_one.2

abbrev two : Session
two = session (7 ∷ 6 ∷ []) idle_ring

abbrev under_way : Session
under_way = session [] (ring (0 ∷ 7 ∷ replicate 7 0 ++ 6 ∷ replicate 54 0) 16)

gather_queue-gather_example :
    (q : Queue) × (gather_queue 1 store with_two.0 idle_ring 2 0
      ≡ some (buffers_of store (7 ∷ 6 ∷ []), q, under_way.sended_buffer))
    × Holds q []
unfolding gather to_bytes ring_push ring_store write_block size
gather_queue-gather_example =
    gather_queue-gather 0 store two with_two.0 2 (buffers_of store (7 ∷ 6 ∷ []))
      (record under_way { recv_buffer = idle_ring }) with_two.2 refl
