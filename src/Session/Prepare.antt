-- ===== src/Session/Prepare.antt =====
-- A serializer that waits for a packet, as the loop of `workerThread` makes it.
use login_server.Base.{◌+◌, ◌^◌, ◌≤◌, ◌<◌, ◌≡◌, refl, sym, ap, ◌∙◌, length, arith, subst}
use login_server.Base.Int.{pos}
use login_server.Serializer.{Serializer, move_front, clear, inc_reference_counter}
use login_server.Serializer.Valid.{IsValid, move_rear-pos, move_front-pos}
use login_server.Serializer.Header.{header_size}
use login_server.Session.{prepare}

-- A serializer that has been cleared and given room for a header, as the worker makes it.
pub record IsPrepared (p : Serializer) : Type 0 where
  pub whole : length p.block ≡ p.buffer_size
  pub head_at : p.head_ptr ≡ p.buffer_ptr + header_size
  pub tail_at : p.tail_ptr ≡ p.buffer_ptr + header_size
  pub addressable : p.buffer_ptr + p.buffer_size < 2 ^ 64
  pub fits_header : header_size ≤ p.buffer_size

pub prepare-IsPrepared :
    {p : Serializer} → IsValid p → header_size ≤ p.buffer_size → IsPrepared (prepare p)
unfolding prepare clear inc_reference_counter
prepare-IsPrepared {p} v fits =
    let counted = (inc_reference_counter p 1).1 in
    let cleared : IsValid (clear counted) = record {
      whole = v.whole;
      low = omega arith;
      order = omega arith;
      high = omega arith;
      addressable = v.addressable;
    } in
    let roomy : IsValid (record (clear counted) { tail_ptr = p.buffer_ptr + header_size }) =
      record {
        whole = v.whole;
        low = omega arith;
        order = omega arith;
        high = omega arith;
        addressable = v.addressable;
      } in
    let ready : IsPrepared (record (clear counted) {
      head_ptr = p.buffer_ptr + header_size;
      tail_ptr = p.buffer_ptr + header_size;
    }) =
      record {
        whole = v.whole;
        head_at = refl;
        tail_at = refl;
        addressable = v.addressable;
        fits_header = fits;
      } in
    subst IsPrepared
      (sym (
        ap (λ m. (move_front m.1 (pos header_size)).1)
          (move_rear-pos cleared header_size (omega arith))
        ∙ ap (λ m. m.1) (move_front-pos roomy header_size (omega arith))))
      ready
