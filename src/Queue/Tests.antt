-- ===== src/Queue/Tests.antt =====
-- The queue at small contents.
use octopus_simulator.Common.{
  ℕ, ◌≡◌, refl, Bool, true, false, some, [], ◌∷◌, if◌then◌else◌, ◌==◌, ◌-◌, ◌^◌,
}
use octopus_simulator.Message.{Message, new_message, upper_interconnect}
use octopus_simulator.Queue.{
  State, ready, non_ready, Element, Buffer, new_buffer, push_back, get_first_ready,
}
use octopus_simulator.Queue.Rescan.{
  Env, Reach, start, followed, pushed_back, fruitless, get_first_ready-skip,
}

abbrev load : ℕ → Message
unfolding new_message
load addr = new_message 1 addr 3 0 1

abbrev snoop : Message
unfolding new_message
snoop = record (new_message 2 128 4 0 2) { source = upper_interconnect }

abbrev stalls_64 : Message → State → State
stalls_64 m s = if m.addr == 64 then non_ready else ready

abbrev free : Message → Bool
free m = false

abbrev queued : Message → Element
queued m = record { item = m; state = non_ready }

abbrev two_lines : Buffer
unfolding new_buffer
two_lines = record (new_buffer (some 3) (2 ^ 64 - 64) true) {
  elements = queued (load 64) ∷ queued (load 68) ∷ queued (load 128) ∷ [];
}

abbrev env : Env
env = record { check = stalls_64; hold = free }

abbrev empty : Buffer
unfolding new_buffer
empty = new_buffer (some 3) (2 ^ 64 - 64) true

abbrev one_stalled : Buffer
one_stalled = (push_back empty (load 64) non_ready false).0

abbrev cleaned : Buffer
cleaned = (get_first_ready stalls_64 free one_stalled).0

cleaned_reached : Reach env empty env cleaned
unfolding get_first_ready push_back new_buffer new_message
cleaned_reached =
    followed (followed start (λ m s t. refl) (pushed_back (load 64) non_ready false))
      (λ m s t. refl) (fruitless refl)

cleaned_clean : cleaned.dirty ≡ false
unfolding get_first_ready push_back new_buffer new_message
cleaned_clean = refl

get_first_ready-skip_example :
    (get_first_ready stalls_64 free cleaned).1
    ≡ (get_first_ready stalls_64 free (record cleaned { readiness_state_only = false })).1
unfolding new_buffer
get_first_ready-skip_example =
    get_first_ready-skip (some 3) (2 ^ 64 - 64) env env cleaned cleaned_reached
