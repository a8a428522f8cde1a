-- ===== src/Network/Lookup.antt =====
-- `findSession` where it finds nothing.
use login_server.Base.{
  ℕ, ◌+◌, ◌-◌, ◌%◌, ◌^◌, ◌≤◌, ◌<◌, ◌≡◌, ◌≢◌, refl, true, false, arith, ◌==◌, leb, Bool-cases, inl,
  inr,
}
use login_server.Session.{increment_io, decrement_io}
use login_server.Network.{Slot, acquire, let_go, leave, find_session}
use login_server.Network.Release.{IsSound}

count-acquire : (x : Slot) → (acquire x).session.io_count ≡ (x.session.io_count + 1) % 2 ^ 32
unfolding acquire increment_io
count-acquire x = refl

id-acquire : (x : Slot) → (acquire x).session.id ≡ x.session.id
unfolding acquire increment_io
id-acquire x = refl

is_flagged : (n : ℕ) → 2 ^ 31 ≤ n → leb (2 ^ 31) n ≡ true
is_flagged n h = ground arith

is_clear : (n : ℕ) → n < 2 ^ 31 → leb (2 ^ 31) n ≡ false
is_clear n h = ground arith

is_other : (a b : ℕ) → a ≢ b → (a == b) ≡ false
is_other a b h = ground arith

is_counted : (n : ℕ) → 0 < n → (n == 0) ≡ false
is_counted n h = ground arith

-- What `acquire` and then `leave` do to a session that stays counted above 0.
acquire-leave :
    (x : Slot) → 0 < x.session.io_count → x.session.io_count < 2 ^ 32 → leave (acquire x) ≡ x
unfolding leave acquire let_go increment_io decrement_io
acquire-leave x counted small =
    let back : ((x.session.io_count + 1) % 2 ^ 32 + 2 ^ 32 - 1) % 2 ^ 32 ≡ x.session.io_count =
      omega arith in
    let held : x.holders + 1 - 1 ≡ x.holders = omega arith in
    rw (back, is_counted x.session.io_count counted) (λ i. record x { holders = held i })

-- A released session, or one inside `init`, is not found under any number, and the look-up leaves it
-- as it was.
pub find_session-released :
    (x : Slot)
    → IsSound x
    → x.stacked + x.opening ≡ 1
    → x.holders + 1 < 2 ^ 31
    → (wanted : ℕ) → find_session x wanted ≡ (false, x)
unfolding find_session
find_session-released x v closed few wanted =
    rw
      (
        acquire-leave x (omega (arith, v.word)) (omega (arith, v.word)),
        count-acquire x,
        is_flagged ((x.session.io_count + 1) % 2 ^ 32) (omega (arith, v.word)),
      )
      refl

-- A session that is held is not found under another number than its own, and the look-up leaves it
-- as it was.
pub find_session-other :
    (x : Slot)
    → IsSound x
    → 0 < x.holders
    → x.holders + 1 < 2 ^ 31
    → (wanted : ℕ) → x.session.id ≢ wanted
    → find_session x wanted ≡ (false, x)
unfolding find_session
find_session-other x v held few wanted other =
    elim (Bool-cases (leb (2 ^ 31) ((x.session.io_count + 1) % 2 ^ 32))) [
      | inl e ↦ rw (away, count-acquire x, e) refl
      | inr e ↦ rw (away, count-acquire x, e, id-acquire x, is_other x.session.id wanted other) refl
    ]
  where
    away : leave (acquire x) ≡ x
    away = acquire-leave x (omega (arith, v.word)) (omega (arith, v.word, v.once, v.few))
