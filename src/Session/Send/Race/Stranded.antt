-- ===== src/Session/Send/Race/Stranded.antt =====
-- A packet that comes between the test of the queue and the reset of `sendFlag`.
use login_server.Base.{ℕ, ◌≡◌, refl, List, [], ◌∷◌, ◌++◌, some}
use login_server.Packet.{Store}
use login_server.Session.{Session, has_cancel_io_flag}
use login_server.Session.Send.{collect_send_packet, accepted}
use login_server.Session.Send.Race.{
  Point, entering, exchanging, taken, resetting, gone, act, Race, collects, advances, Turns, still,
  then_turn,
}

-- A session that nothing is queued for, with this flag, and its tasks.
abbrev pub idle_with : Store → Session → List Point → Race
idle_with st s ts = record {
  store = st;
  session = record s { send_flag = 0; cancel_io_flag = 0; send_buffer = [] };
  tasks = ts;
}

abbrev pub stranded_with : Store → Session → ℕ → List Point → Race
stranded_with st s a ts = record {
  store = st;
  session = record s { send_flag = 0; cancel_io_flag = 0; send_buffer = a ∷ [] };
  tasks = ts;
}

-- Once a task has come to the exchange of `sendFlag` with no send under way and an empty queue, for any
-- packet there is an order of the threads' steps after which the packet is queued, its call of
-- `sendIO` and that task have returned, and no send has been started.
pub idle-stranded :
    (st : Store) (s : Session) (before behind : List Point) (a : ℕ)
    → Turns
        (idle_with st s (before ++ exchanging ∷ behind))
        (stranded_with st s a (gone ∷ (before ++ gone ∷ behind)))
unfolding act collect_send_packet has_cancel_io_flag
idle-stranded st s before behind a =
    let at = λ (flag : ℕ) (q : List ℕ). record s {
      send_flag = flag;
      cancel_io_flag = 0;
      send_buffer = q;
    } in
    let one =
      λ (flag : ℕ) (q : List ℕ) (flag' : ℕ) (us vs : List Point) (p p' : Point)
          (does : act 0 accepted 0 p st (at flag q) ≡ some (p', st, at flag' q)).
        advances st st (at flag q) (at flag' q) us vs p p' 0 accepted 0 does in
    then_turn
      (then_turn
        (then_turn
          (then_turn
            (then_turn
              (then_turn (still (idle_with st s (before ++ exchanging ∷ behind)))
                (one 0 [] 1 before behind exchanging taken refl))
              (one 1 [] 1 before behind taken resetting refl))
            (collects st (at 1 []) (before ++ resetting ∷ behind) a refl))
          (one 1 (a ∷ []) 1 [] (before ++ resetting ∷ behind) entering exchanging refl))
        (one 1 (a ∷ []) 1 [] (before ++ resetting ∷ behind) exchanging gone refl))
      (one 1 (a ∷ []) 0 (gone ∷ before) behind resetting gone refl)
