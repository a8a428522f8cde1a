-- ===== src/Tests/PacketTests.antt =====
-- A handle of loginServer/lib/IOCP netServer/packet.h that is made, copied and dropped twice.
use login_server.Base.{ℕ, ◌+◌, ◌≡◌, ◌<◌, refl, arith, replicate, count}
use login_server.Serializer.{Serializer}
use login_server.Packet.{
  Owned, more, new_packet, copy_packet, Steps, makes, copies, done, then_step,
}
use login_server.Packet.Counted.{untouched, counter-held}

abbrev fresh_cell : ℕ → Serializer
fresh_cell a = record {
  block = replicate 20 0;
  buffer_ptr = 1000;
  buffer_size = 20;
  head_ptr = 1000;
  tail_ptr = 1000;
  reference_counter = 0;
}

abbrev made : Owned
made = record {
  store = (new_packet (untouched fresh_cell).store 7).1;
  held = more (untouched fresh_cell).held 7;
}

abbrev copied : Owned
copied = record { store = (copy_packet made.store 7).1; held = more made.held 7 }

to_copied : Steps (untouched fresh_cell) copied
unfolding more
to_copied =
    then_step (then_step (done _) (makes (untouched fresh_cell) 7 refl))
      (copies made 7 (omega arith) (omega arith))

counter-held_example :
    ((copied.store.cell 7).reference_counter ≡ copied.held 7)
    × (0 < copied.held 7 → count 7 copied.store.allocs ≡ count 7 copied.store.frees + 1)
    × (copied.held 7 ≡ 0 → count 7 copied.store.allocs ≡ count 7 copied.store.frees)
counter-held_example = counter-held fresh_cell (λ a. refl) to_copied 7
