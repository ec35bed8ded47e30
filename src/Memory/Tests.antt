-- ===== src/Memory/Tests.antt =====
-- A memory of latency 5 with a read of cycle 7 behind one of cycle 4.
use octopus_simulator.Common.{ℕ, refl, false, some, [], ◌∷◌}
use octopus_simulator.Message.{Message, new_message}
use octopus_simulator.Queue.{non_ready, Buffer, new_buffer, get_first_ready}
use octopus_simulator.Memory.{ripeness}
use octopus_simulator.Memory.Ripe.{ServesFirst, get_first_ready-ServesFirst}

abbrev read_at_cycle : ℕ → Message
unfolding new_message
read_at_cycle cycle = new_message cycle 64 cycle 0 1

abbrev queue : Buffer
unfolding new_buffer read_at_cycle
queue = record (new_buffer (some 4) 0 false) {
  elements =
      record { item = read_at_cycle 4; state = non_ready }
      ∷ record { item = read_at_cycle 7; state = non_ready }
      ∷ [];
}

get_first_ready-ServesFirst_example : ServesFirst 5 10 queue.elements (
  (get_first_ready (ripeness 5 10) (λ m. false) queue).1,
  (get_first_ready (ripeness 5 10) (λ m. false) queue).0.elements,
)
unfolding queue new_buffer read_at_cycle
get_first_ready-ServesFirst_example =
    get_first_ready-ServesFirst 5 10 queue refl refl (refl, (refl, tt))
