-- ===== src/Directory/Arrivals.antt =====
-- MSIDirectory and CacheControllerDirectory together: one acknowledgement, or the data, for a line that a
-- private cache wants to write.
use octopus_simulator.Common.{
  ℕ, zero, suc, ◌<◌, ◌≡◌, refl, sym, ap, ◌∙◌, subst, Bool, true, false, not, Option, none, some,
  List, [], ◌∷◌, find, ◌==◌, if_keeps, ℤ, pos, negsuc, add_ℕ, minus_one, is_zero, arith,
}
use octopus_simulator.Message.{Message, upper_interconnect}
use octopus_simulator.Directory.{
  DirectoryAction, set_ack_number, decrement_ack, AckCounters, set_ack, dec_ack,
}
use octopus_simulator.Directory.Private.{
  EventId, data_zero_ack, data_non_zero_ack, inv_ack, last_inv_ack, Place, event_from, handle_each,
  completes_count, completes_ack, data_event, bus_event, handle_one, hit_actions, action_id,
}
use octopus_simulator.Directory.Counters.{
  stored, Counts, completes_ack-stored, not_data, dec_ack-Counts, set_ack-Counts,
}

-- What comes for the line: an acknowledgement of an invalidation, or the home node's data.
pub data Arrival : Type 0 where
  acked : Message → Arrival
  with_data : Message → List ℕ → Arrival

abbrev pub message_of : Place → ℕ → Arrival → Message
message_of p n (acked m) = record m {
  source = upper_interconnect;
  payload = none;
  complementary_value = 6;
}
message_of p n (with_data m bytes) = record m {
  source = upper_interconnect;
  payload = some bytes;
  from = p.memory;
  complementary_value = n;
}

-- The actions of the rows IM_ad and IM_a of Protocols_FSM/MSI_directory.csv for these events.
abbrev pub row : Option EventId → List ℕ
row (some data_zero_ack) = 1 ∷ []
row (some data_non_zero_ack) = 11 ∷ []
row (some inv_ack) = 10 ∷ []
row (some last_inv_ack) = 1 ∷ 10 ∷ []
row _ = 13 ∷ []

abbrev pub is_last : Option EventId → Bool
is_last (some data_zero_ack) = true
is_last (some last_inv_ack) = true
is_last _ = false

abbrev pub act : ℕ → AckCounters → DirectoryAction → AckCounters
act key acks (set_ack_number m) = set_ack acks key m
act key acks (decrement_ack m) = dec_ack acks key
act key acks _ = acks

abbrev pub act_all : ℕ → AckCounters → List DirectoryAction → AckCounters
act_all key acks [] = acks
act_all key acks (x ∷ xs) = act_all key (act key acks x) xs

abbrev pub act_answer : ℕ → AckCounters → Option (List DirectoryAction) → AckCounters
act_answer key acks none = acks
act_answer key acks (some xs) = act_all key acks xs

-- A message is read, its row's actions are made and run; and whether its event is that of the end.
pub arrive : Place → AckCounters → Message → AckCounters × Bool
unfolding event_from handle_each
arrive p acks m =
    let e = event_from p acks m m.source in
    (act_answer p.key acks (handle_each p acks m [] (row e)), is_last e)

abbrev pub acks_of : List Arrival → ℕ
acks_of [] = 0
acks_of (acked m ∷ rest) = suc (acks_of rest)
acks_of (with_data m bytes ∷ rest) = acks_of rest

abbrev pub data_of : List Arrival → ℕ
data_of [] = 0
data_of (acked m ∷ rest) = data_of rest
data_of (with_data m bytes ∷ rest) = suc (data_of rest)

-- True at the last place and nowhere else.
abbrev pub OnlyLast : List Bool → Type 0
OnlyLast [] = ⊥
OnlyLast (b ∷ []) = b ≡ true
OnlyLast (b ∷ c ∷ flags) = (b ≡ false) × OnlyLast (c ∷ flags)

-- What an event does to the counters.
abbrev pub after : Place → AckCounters → Message → EventId → AckCounters × Bool
after p acks m e =
    (act_answer p.key acks (handle_each p acks m [] (row (some e))), is_last (some e))

abbrev pub Arrived : ℕ → ℤ → AckCounters × Bool → Type 0
Arrived key v r = Counts r.0 key v × (r.1 ≡ is_zero v)

pub after-last_inv_ack :
    (p : Place) (acks : AckCounters) (m : Message)
    → completes_count (find acks p.key) 6 ≡ false
    → (after p acks
        (record m { source = upper_interconnect; payload = none; complementary_value = 6 })
        last_inv_ack).0
      ≡ dec_ack acks p.key
unfolding handle_each handle_one hit_actions action_id
after-last_inv_ack p acks m e = rw e

pub after-inv_ack :
    (p : Place) (acks : AckCounters) (m : Message) → (after p acks m inv_ack).0 ≡ dec_ack acks p.key
unfolding handle_each handle_one action_id
after-inv_ack p acks m = refl

pub arrive-acked :
    (p : Place) (n : ℕ) (acks : AckCounters) (m : Message) (v : ℤ)
    → Counts acks p.key v
    → Arrived p.key (minus_one v) (arrive p acks (message_of p n (acked m)))
unfolding arrive event_from bus_event
arrive-acked p n acks m v (f, o) =
    if_keeps (λ e. Arrived p.key (minus_one v) (after p acks (message_of p n (acked m)) e))
      (completes_ack (find acks p.key))
      (λ e. (
        subst (λ c. Counts c p.key (minus_one v))
            (sym (
              after-last_inv_ack p acks m
                (ap (λ x. completes_count x 6) f ∙ not_data v (ap completes_ack (sym f) ∙ e))))
            (dec_ack-Counts acks p.key v (f, o)),
        sym e ∙ ap completes_ack f ∙ completes_ack-stored v,
      ))
      (λ e. (
        subst (λ c. Counts c p.key (minus_one v))
            (sym (after-inv_ack p acks (message_of p n (acked m))))
            (dec_ack-Counts acks p.key v (f, o)),
        sym e ∙ ap completes_ack f ∙ completes_ack-stored v,
      ))

pub after-data_zero_ack :
    (p : Place) (acks : AckCounters) (m : Message) (bytes : List ℕ)
    → completes_count (find acks p.key) m.complementary_value ≡ true
    → (after p acks
        (record m { source = upper_interconnect; payload = some bytes })
        data_zero_ack).0
      ≡ set_ack acks p.key m
unfolding handle_each handle_one hit_actions action_id set_ack
after-data_zero_ack p acks m bytes e = rw e

pub after-data_non_zero_ack :
    (p : Place) (acks : AckCounters) (m : Message)
    → (after p acks m data_non_zero_ack).0 ≡ set_ack acks p.key m
unfolding handle_each handle_one action_id
after-data_non_zero_ack p acks m = refl

pub completes_count-eq :
    (v : ℤ) (n : ℕ) → 0 < n → completes_count (stored v) n ≡ is_zero (add_ℕ v n)
unfolding completes_count
completes_count-eq (pos zero) n h = ground arith
completes_count-eq (pos (suc k)) n h = refl
completes_count-eq (negsuc k) n h = refl

pub arrive-with_data :
    (p : Place) (n : ℕ) (acks : AckCounters) (m : Message) (bytes : List ℕ) (v : ℤ)
    → 0 < n
    → Counts acks p.key v
    → Arrived p.key (add_ℕ v n) (arrive p acks (message_of p n (with_data m bytes)))
unfolding arrive event_from data_event
arrive-with_data p n acks m bytes v h (f, o) =
    if_keeps Goal (not (p.memory == p.memory)) (λ e. absurd (ground arith))
      (λ _.
        if_keeps Goal (n == 0) (λ e. absurd (ground arith))
          (λ _.
            if_keeps Goal (completes_count (find acks p.key) n)
              (λ e. (
                subst (λ c. Counts c p.key (add_ℕ v n))
                    (sym (after-data_zero_ack p acks got bytes e))
                    (set_ack-Counts acks p.key v got (f, o)),
                sym e ∙ reads,
              ))
              (λ e. (
                subst (λ c. Counts c p.key (add_ℕ v n)) (sym (after-data_non_zero_ack p acks got))
                    (set_ack-Counts acks p.key v got (f, o)),
                sym e ∙ reads,
              ))))
  where
    got : Message
    got = message_of p n (with_data m bytes)

    Goal : EventId → Type 0
    Goal e = Arrived p.key (add_ℕ v n) (after p acks got e)

    reads : completes_count (find acks p.key) n ≡ is_zero (add_ℕ v n)
    reads = ap (λ x. completes_count x n) f ∙ completes_count-eq v n h
