-- ===== src/Session/Stuck.antt =====
-- A header from the wire whose size is negative: `recvedPacket` does not test it.
use login_server.Base.{
  ℕ, zero, suc, ◌-◌, ◌≤◌, ◌^◌, ◌≡◌, refl, ap, ◌∙◌, none, some, [], length, take, drop, arith, true,
}
use login_server.Base.Blocks.{splice, write_block_inside}
use login_server.Base.Int.{negsuc}
use login_server.Ring.{Ring, size}
use login_server.Ring.Index.{IsValid as RingIsValid}
use login_server.Ring.Contents.{contents as ring_contents}
use login_server.Ring.Pop.{given, pop_lem}
use login_server.Serializer.{Serializer, move_front, move_rear}
use login_server.Serializer.Header.{header_size}
use login_server.Session.{
  Session, payload_of, frame_size, take_frame, recved_packet, prepare, drain,
}
use login_server.Session.Framing.{
  received, length-received, size_of, with_header, get_or-header, leb-true,
}

-- The bit pattern of a size of -5, by which the packet is 0 bytes long.
abbrev pub minus_five : ℕ
minus_five = 2 ^ 16 - 5

module _ (s : Session) (v : RingIsValid s.recv_buffer)
    (negative : size_of (received s) ≡ minus_five) (long : header_size ≤ length (received s)) where
  frame_empty : frame_size (take header_size (received s)) ≡ 0
  unfolding frame_size
  frame_empty = ground (
    arith,
    get_or-header (received s) 1 (omega arith),
    get_or-header (received s) 2 (omega arith),
  )

  abbrev left_of : Serializer → Serializer
  left_of p =
      let q = record p { block = splice p.block 0 [] } in
      (move_front (move_rear q (payload_of (take header_size (received s)))).1
        (negsuc (header_size - 1))).1

  -- It is taken for a packet, and nothing is taken away.
  cut_nothing :
      (p : Serializer)
      → (r : Ring) × (q : Serializer) × (recved_packet s p
          ≡ some (true, record s { recv_buffer = r }, q))
        × RingIsValid r
        × (ring_contents r ≡ received s)
  unfolding take_frame
  cut_nothing p =
      let (r, pops, valid, max, left) = pop_lem s.recv_buffer v 0 in
      let zero_given : given s.recv_buffer 0 ≡ 0 = omega arith in
      (
        r,
        left_of p,
        with_header s v p (omega (arith, length-received s))
            ∙ rw
                (
                  frame_empty,
                  leb-true 0 (size s.recv_buffer) (omega arith),
                  pops,
                  zero_given,
                  write_block_inside p.block 0 [] (omega arith),
                )
                refl,
        valid,
        left ∙ ap (λ k. drop k (received s)) zero_given,
      )

-- When the bytes received begin with a header of size -5, the loop of the worker never ends: no fuel
-- is enough.
pub drain-stuck :
    (s : Session)
    → RingIsValid s.recv_buffer
    → size_of (received s) ≡ minus_five
    → header_size ≤ length (received s)
    → (alloc : ℕ → Serializer) (fuel : ℕ) → drain alloc fuel s ≡ none
unfolding drain
drain-stuck s v negative long alloc zero = refl
drain-stuck s v negative long alloc (suc fuel) =
    let (r, q, cut, valid, same) = cut_nothing s v negative long (prepare (alloc 0)) in
    rw
      (
        cut,
        drain-stuck (record s { recv_buffer = r }) valid (ap size_of same ∙ negative)
            (omega (arith, ap length same)) (λ i. alloc (suc i)) fuel,
      )
      refl
