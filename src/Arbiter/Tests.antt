-- ===== src/Arbiter/Tests.antt =====
-- The elections at small buffers: two senders, with messages of the owners 1 and 2.
use octopus_simulator.Common.{ℕ, ◌≡◌, refl, some, List, [], ◌∷◌, All, arith}
use octopus_simulator.Common.Relations.{TakesIn}
use octopus_simulator.Message.{Message, new_message}
use octopus_simulator.Arbiter.{Arbiter, new_arbiter, elect_oldest_owned, rr_elect}
use octopus_simulator.Arbiter.Oldest.{OwnedFrom, elect_oldest_owned-oldest}
use octopus_simulator.Arbiter.Turns.{FirstInTurn, rr_elect-FirstInTurn}

abbrev sent : ℕ → ℕ → Message
unfolding new_message
sent cycle owner = new_message 0 64 cycle 0 owner

abbrev two_senders : List (List Message)
two_senders = (sent 5 2 ∷ sent 9 1 ∷ []) ∷ (sent 7 1 ∷ []) ∷ []

abbrev three_cores : Arbiter
unfolding new_arbiter
three_cores = new_arbiter (1 ∷ 2 ∷ 3 ∷ []) 4

abbrev after_election : List (List Message)
after_election = (sent 5 2 ∷ sent 9 1 ∷ []) ∷ [] ∷ []

served_from_second_buffer : elect_oldest_owned two_senders 1 ≡ some (sent 7 1, after_election)
unfolding elect_oldest_owned new_message
served_from_second_buffer = refl

elect_oldest_owned-oldest_example :
    ((sent 7 1).owner ≡ 1)
    × TakesIn two_senders (sent 7 1) after_election
    × All (OwnedFrom 1 (sent 7 1).cycle) two_senders
unfolding new_message
elect_oldest_owned-oldest_example =
    elect_oldest_owned-oldest two_senders 1 (sent 7 1) after_election (omega arith)
      served_from_second_buffer

rr_elect-FirstInTurn_example :
    FirstInTurn 3 three_cores two_senders (rr_elect three_cores two_senders).1
unfolding new_arbiter
rr_elect-FirstInTurn_example = rr_elect-FirstInTurn three_cores two_senders

round_robin_serves_owner_two : (rr_elect three_cores two_senders).0.candidate_id ≡ some 2
unfolding rr_elect new_message new_arbiter
round_robin_serves_owner_two = refl
