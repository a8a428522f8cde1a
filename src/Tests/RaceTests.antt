-- ===== src/Tests/RaceTests.antt =====
-- Two packets of one session that come to two threads, for Session/Send/Race.
use login_server.Base.{ℕ, ◌+◌, ◌≡◌, ◌≤◌, refl, some, [], ◌∷◌}
use login_server.Base.Blocks.{read_block, write_block}
use login_server.Serializer.Scalars.{to_bytes, of_bytes}
use login_server.Ring.{push, pop, load, store as ring_store}
use login_server.Serializer.{size}
use login_server.Packet.{Store, release}
use login_server.Session.{Session, has_cancel_io_flag, increment_io}
use login_server.Session.Send.{Answer, collect_send_packet, accepted, sended, sended_loop}
use login_server.Session.Send.Race.{
  Point, entering, exchanging, taken, gone, gather_one, after_send, after_flight, after_sended, act,
  Race, collects, advances, Turns, still, then_turn,
}
use login_server.Session.Send.Race.Exclusive.{inside, wanted, quiet, one_inside}
use login_server.Session.Send.Race.Attended.{IsAttended, IsPrompt, ArePrompt, prompt-IsAttended}
use login_server.Session.Send.Race.Stranded.{idle_with, stranded_with, idle-stranded}
use login_server.Tests.SendTests.{store, session, idle_ring}

abbrev idle : Session
idle = session [] idle_ring

-- The session with these packets queued and this flag.
abbrev with_two : ℕ → Session
with_two flag = record (session (7 ∷ 6 ∷ []) idle_ring) { send_flag = flag }

-- Both packets are queued, and the thread of the second one has taken the flag.
abbrev two_come : Race
two_come = record { store = store; session = with_two 1; tasks = taken ∷ entering ∷ [] }

come : Turns (quiet store idle) two_come
unfolding act collect_send_packet has_cancel_io_flag
come =
    then_turn
      (then_turn
        (then_turn (then_turn (still _) (collects store _ [] 7 refl))
          (collects store _ (entering ∷ []) 6 refl))
        (advances store store (with_two 0) (with_two 0) [] (entering ∷ []) entering exchanging 0
          accepted 0 refl))
      (advances store store (with_two 0) (with_two 1) [] (entering ∷ []) exchanging taken 0 accepted
        0 refl)

one_inside_example : (inside taken + inside entering ≤ 1) × (wanted taken + wanted entering ≤ 2)
one_inside_example = one_inside store idle come [] [] [] taken entering refl

come_prompt : ArePrompt come
unfolding ArePrompt IsPrompt come
come_prompt = ((((record {}, record {}), record {}), refl), refl)

prompt-IsAttended_example : IsAttended two_come
prompt-IsAttended_example = prompt-IsAttended store idle refl come come_prompt

idle-stranded_example :
    Turns
      (idle_with store idle (exchanging ∷ gone ∷ []))
      (stranded_with store idle 7 (gone ∷ gone ∷ gone ∷ []))
idle-stranded_example = idle-stranded store idle [] (gone ∷ []) 7

-- The next step of the second task, behind a run.
next :
    {x : Race} {st : Store} {s : Session} {first p : Point}
    → Turns x (record { store = st; session = s; tasks = first ∷ p ∷ [] })
    → (answer : Answer) (transfer : ℕ) {r : Point × Store × Session}
    → act 3 answer transfer p st s ≡ some r
    → Turns x (record { store = r.1; session = r.2; tasks = first ∷ r.0 ∷ [] })
next run answer transfer {r} does =
    then_turn run (advances _ r.1 _ r.2 (_ ∷ []) [] _ r.0 3 answer transfer does)

abbrev both_come : Race
both_come = record { store = store; session = with_two 0; tasks = exchanging ∷ entering ∷ [] }

both : Turns (quiet store idle) both_come
unfolding act collect_send_packet has_cancel_io_flag
both =
    then_turn
      (then_turn (then_turn (still _) (collects store _ [] 7 refl))
        (collects store _ (entering ∷ []) 6 refl))
      (advances store store (with_two 0) (with_two 0) [] (entering ∷ []) entering exchanging 0
        accepted 0 refl)

-- Such a state comes about: the first thread sends both packets, and its send is complete, before the
-- second one comes to its exchange.
late_task :
    (x : Race) × Turns (quiet store idle) x
    × (x.tasks ≡ exchanging ∷ gone ∷ [])
    × (x.session.send_flag ≡ 0)
    × (x.session.cancel_io_flag ≡ 0)
    × (x.session.send_buffer ≡ [])
unfolding act has_cancel_io_flag gather_one after_send after_flight sended sended_loop after_sended
    increment_io release push pop size ring_store load to_bytes of_bytes read_block write_block
late_task = (
  _,
  next
      (next
        (next
          (next
            (next
              (next
                (next (next (next (next both accepted 5 refl) accepted 5 refl) accepted 5 refl)
                  accepted 5 refl)
                accepted 5 refl)
              accepted 5 refl)
            accepted 5 refl)
          accepted 5 refl)
        accepted 5 refl)
      accepted 5 refl,
  refl,
  refl,
  refl,
  refl,
)
