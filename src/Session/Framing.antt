-- ===== src/Session/Framing.antt =====
-- `recvedPacket` cuts one packet off the bytes received, or leaves everything as it was.
use login_server.Base.{
  ℕ, ◌+◌, ◌-◌, ◌*◌, ◌^◌, ◌≤◌, ◌<◌, ◌≡◌, sym, ap, ◌∙◌, ◌⊎◌, inl, inr, true, false, some, List, ◌++◌,
  length, get_or, take, drop, leb, Bool-cases, leb→le, leb→lt, arith, length-take, get_or-take,
  get_or-append, length-append, take-append, drop-append,
}
use login_server.Base.Blocks.{splice, slice, write_block_inside, length-splice, slice-splice}
use login_server.Base.Int.{pos, negsuc, sub_ℕ, max_ℤ, ptr_add}
use login_server.Ring.{Ring, pop, size}
use login_server.Ring.Index.{IsValid as RingIsValid, span, size-span}
use login_server.Ring.Contents.{contents as ring_contents, length-tabulate}
use login_server.Ring.Pop.{given, pop_lem, front_lem}
use login_server.Serializer.{Serializer, move_front, move_rear}
use login_server.Serializer.Valid.{IsValid, contents, move_rear-pos}
use login_server.Serializer.Header.{header_size}
use login_server.Serializer.Framed.{back}
use login_server.Session.Prepare.{IsPrepared}
use login_server.Session.{Session, payload_of, frame_size, take_frame, recved_packet}

-- The bytes received and not yet cut into packets.
abbrev pub received : Session → List ℕ
received s = ring_contents s.recv_buffer

-- The size that a header claims, as the `short` it is, and one that is not negative.
abbrev pub size_of : List ℕ → ℕ
size_of h = get_or h 1 0 + 2 ^ 8 * get_or h 2 0

-- A packet on the wire: a header whose size is not negative, and as many bytes as it says.
pub record IsFrame (f : List ℕ) : Type 0 where
  pub short : size_of f < 2 ^ 15
  pub whole : length f ≡ header_size + size_of f

-- Bytes that do not make a packet yet: less than a header, or less than its size says.
abbrev pub IsPartial : List ℕ → Type 0
IsPartial t =
    (length t < header_size) ⊎ ((size_of t < 2 ^ 15) × (length t < header_size + size_of t))

pub length-received : (s : Session) → length (received s) ≡ span s.recv_buffer
length-received s = length-tabulate _ (span s.recv_buffer)

module _ (s : Session) (v : RingIsValid s.recv_buffer) (p : Serializer) where
  -- With a header's bytes received, the rest is done with the header.
  pub with_header :
      header_size ≤ span s.recv_buffer
      → recved_packet s p ≡ take_frame s p (take header_size (received s))
  unfolding recved_packet
  with_header long = ground (arith, size-span v, front_lem s.recv_buffer v header_size)

  without_header : span s.recv_buffer < header_size → recved_packet s p ≡ some (false, s, p)
  unfolding recved_packet
  without_header few = ground (arith, size-span v)

pub leb-true : (a b : ℕ) → a ≤ b → leb a b ≡ true
leb-true a b h = ground arith

-- The header of a packet is read from the first bytes received.
pub get_or-header :
    (l : List ℕ) (i : ℕ) → i < header_size → get_or (take header_size l) i 0 ≡ get_or l i 0
get_or-header l i h = ground (arith, get_or-take header_size l i 0)

frame_size-header :
    (l : List ℕ) → size_of l < 2 ^ 15 → frame_size (take header_size l) ≡ header_size + size_of l
unfolding frame_size
frame_size-header l h =
    ground (arith, get_or-header l 1 (omega arith), get_or-header l 2 (omega arith))

payload_of-header :
    (l : List ℕ) → size_of l < 2 ^ 15 → payload_of (take header_size l) ≡ pos (size_of l)
unfolding payload_of
payload_of-header l h =
    ground (arith, get_or-header l 1 (omega arith), get_or-header l 2 (omega arith))

-- The serializer with a packet in it: its head at the start of its block, its tail behind the bytes.
abbrev pub packed : Serializer → List ℕ → Serializer
packed p f = record p {
  block = splice p.block 0 f;
  head_ptr = p.buffer_ptr;
  tail_ptr = p.buffer_ptr + length f;
}

module _ (p : Serializer) (q : IsPrepared p) (f : List ℕ) (fits : length f ≤ p.buffer_size) where
  pub packed-IsValid : IsValid (packed p f)
  packed-IsValid = record {
    whole = length-splice p.block 0 f ∙ q.whole;
    low = omega arith;
    order = omega arith;
    high = omega arith;
    addressable = q.addressable;
  }

  pub packed-contents : contents (packed p f) ≡ f
  packed-contents =
      let start : p.buffer_ptr - p.buffer_ptr ≡ 0 = omega arith in
      let all : p.buffer_ptr + length f - p.buffer_ptr ≡ 0 + length f = omega arith in
      (λ i. slice (splice p.block 0 f) (start i) (all i))
      ∙ slice-splice p.block 0 0 f (omega (arith, q.whole))

  -- The pointer steps of `recvedPacket`, after its bytes are in the block.
  moved :
      (n : ℕ)
      → length f ≡ header_size + n
      → (move_front
          (move_rear (record p { block = splice p.block 0 f }) (pos n)).1
          (negsuc (header_size - 1))).1
        ≡ packed p f
  unfolding move_front
  moved n e =
      let b : IsValid (record p { block = splice p.block 0 f }) = record {
        whole = length-splice p.block 0 f ∙ q.whole;
        low = omega (arith, q.head_at);
        order = omega (arith, q.head_at, q.tail_at);
        high = omega (arith, q.tail_at, q.fits_header);
        addressable = q.addressable;
      } in
      let head : ptr_add p.head_ptr
            (max_ℤ (negsuc (header_size - 1)) (sub_ℕ p.buffer_ptr p.head_ptr))
          ≡ p.buffer_ptr =
        back p.buffer_ptr p.head_ptr q.head_at (omega (arith, q.addressable, q.fits_header)) in
      let tail : p.tail_ptr + n ≡ p.buffer_ptr + length f = omega (arith, q.tail_at) in
      ap (λ m. (move_front m.1 (negsuc (header_size - 1))).1)
        (move_rear-pos b n (omega (arith, q.tail_at)))
      ∙ λ i. record p { block = splice p.block 0 f; head_ptr = head i; tail_ptr = tail i }

module _ (s : Session) (v : RingIsValid s.recv_buffer) (p : Serializer) (q : IsPrepared p) where
  cut_off :
      (h f : List ℕ) (n : ℕ) (r : Ring)
      → frame_size h ≡ length f
      → payload_of h ≡ pos n
      → length f ≡ header_size + n
      → length f ≤ span s.recv_buffer
      → length f ≤ p.buffer_size
      → pop s.recv_buffer (length f) ≡ some (length f, f, r)
      → take_frame s p h ≡ some (true, record s { recv_buffer = r }, packed p f)
  unfolding take_frame
  cut_off h f n r frame payload whole long fits pops =
      rw
        (
          frame,
          payload,
          leb-true (length f) (size s.recv_buffer) (omega (arith, size-span v, long)),
          pops,
          write_block_inside p.block 0 f (omega (arith, q.whole)),
        )
        (ap (λ t. some (true, record s { recv_buffer = r }, t)) (moved p q f fits n whole))

  -- A whole packet at the front is cut off, and is all that the serializer then holds.
  taken :
      size_of (received s) < 2 ^ 15
      → header_size + size_of (received s) ≤ span s.recv_buffer
      → header_size + size_of (received s) ≤ p.buffer_size
      → (r : Ring) × (take_frame s p (take header_size (received s))
          ≡ some (
            true,
            record s { recv_buffer = r },
            packed p (take (header_size + size_of (received s)) (received s)),
          ))
        × RingIsValid r
        × (r.max_size ≡ s.recv_buffer.max_size)
        × (ring_contents r ≡ drop (header_size + size_of (received s)) (received s))
  unfolding take_frame
  taken short long fits =
      let n : ℕ = header_size + size_of (received s) in
      let f : List ℕ = take n (received s) in
      let whole : given s.recv_buffer n ≡ n = omega arith in
      let length_f : length f ≡ n = omega (arith, length-take n (received s), length-received s) in
      let (r, pops, valid, same, left) = pop_lem s.recv_buffer v n in
      (
        r,
        cut_off (take header_size (received s)) f (size_of (received s)) r
            (frame_size-header (received s) short ∙ sym length_f)
            (payload_of-header (received s) short) length_f (omega arith) (omega arith)
            (rw length_f (pops ∙ λ i. some (whole i, take (whole i) (received s), r))),
        valid,
        same,
        left ∙ ap (λ k. drop k (received s)) whole,
      )

  -- Bytes that are no packet yet stay where they are.
  pub recved_packet-partial : IsPartial (received s) → recved_packet s p ≡ some (false, s, p)
  unfolding take_frame
  recved_packet-partial (inl few) = without_header s v p (omega (arith, length-received s))
  recved_packet-partial (inr (short, few)) =
      elim (Bool-cases (leb header_size (span s.recv_buffer))) [
        | inl e ↦
            with_header s v p (leb→le header_size (span s.recv_buffer) e)
            ∙ rw (frame_size-header (received s) short, size-span v)
                (ground (arith, length-received s))
        | inr e ↦ without_header s v p (leb→lt header_size (span s.recv_buffer) e)
      ]

size_of-append : (f rest : List ℕ) → header_size ≤ length f → size_of (f ++ rest) ≡ size_of f
size_of-append f rest h = ground (arith, get_or-append f rest 1 0, get_or-append f rest 2 0)

-- When the bytes received begin with a packet that fits the serializer, `recvedPacket` returns true,
-- the serializer holds exactly that packet, and exactly what came after it stays in the ring.
pub recved_packet-frame :
    (s : Session)
    → RingIsValid s.recv_buffer
    → (p : Serializer) → IsPrepared p
    → (f rest : List ℕ) → IsFrame f
    → length f ≤ p.buffer_size
    → received s ≡ f ++ rest
    → (r : Ring) × (recved_packet s p ≡ some (true, record s { recv_buffer = r }, packed p f))
      × RingIsValid r
      × (r.max_size ≡ s.recv_buffer.max_size)
      × (ring_contents r ≡ rest)
recved_packet-frame s v p q f rest w fits e =
    let all : span s.recv_buffer ≡ length f + length rest =
      sym (length-received s) ∙ ap length e ∙ length-append f rest in
    let same : size_of (received s) ≡ size_of f =
      ap size_of e ∙ size_of-append f rest (omega (arith, w.whole)) in
    let n : header_size + size_of (received s) ≡ length f = omega (arith, same, w.whole) in
    let (r, takes, valid, max, left) =
      taken s v p q (omega (arith, same, w.short)) (omega arith) (omega arith) in
    (
      r,
      with_header s v p (omega (arith, w.whole))
          ∙ takes
          ∙ ap (λ t. some (true, record s { recv_buffer = r }, packed p t))
              ((λ i. take (n i) (e i)) ∙ take-append f rest),
      valid,
      max,
      left ∙ (λ i. drop (n i) (e i)) ∙ drop-append f rest,
    )
