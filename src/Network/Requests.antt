-- ===== src/Network/Requests.antt =====
-- A send request goes over the completion port as a packet's address with a stamp above it.
use login_server.Base.{ℕ, ◌+◌, ◌*◌, ◌/◌, ◌%◌, ◌^◌, ◌<◌, ◌≡◌, refl, bit_and, arith}
use login_server.Base.Bits.{bit_and_mask, bit_and_field, bit_or_fields}
use login_server.Network.{not_define, send_req, req_filter, request_check, req_value, packet_of}

stamped : (packet : ℕ) → packet < 2 ^ 60 → req_value packet ≡ 4 * 2 ^ 60 + packet
unfolding req_value
stamped packet h = bit_or_fields 60 packet 4 h

-- The stamp of a value, from the bits 60 to 63.
stamp_of : (overlapped : ℕ) → bit_and overlapped req_filter ≡ overlapped / 2 ^ 60 % 2 ^ 4 * 2 ^ 60
stamp_of overlapped = bit_and_field 60 4 overlapped

-- The worker takes a send request for one, and gets the packet's address back, for an address below
-- 2 ^ 60; and it takes such an address itself for no request.
pub request_check-req_value :
    (packet : ℕ)
    → packet < 2 ^ 60
    → (request_check (req_value packet) ≡ send_req)
      × (packet_of (req_value packet) ≡ packet)
      × (request_check packet ≡ not_define)
unfolding request_check packet_of
request_check-req_value packet h = (
  rw (stamped packet h, stamp_of (4 * 2 ^ 60 + packet), stamp_is_send) refl,
  rw (stamped packet h, bit_and_mask 60 (4 * 2 ^ 60 + packet)) (omega arith),
  rw (stamp_of packet, no_stamp) refl,
)
  where
    stamp_is_send : (4 * 2 ^ 60 + packet) / 2 ^ 60 % 2 ^ 4 * 2 ^ 60 ≡ 4 * 2 ^ 60
    stamp_is_send = omega arith

    no_stamp : packet / 2 ^ 60 % 2 ^ 4 * 2 ^ 60 ≡ 0
    no_stamp = omega arith
