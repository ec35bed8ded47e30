-- ===== src/Directory/Tests.antt =====
-- A line of the home node 9 that the caches 1, 2 and 3 share, and cache 1 that writes it.
use octopus_simulator.Common.{
  ℕ, ◌≡◌, refl, ◌&&◌, ◌||◌, not, none, some, List, [], ◌∷◌, ◌++◌, length, find, ◌==◌, if◌then◌else◌,
  is_some, arith,
}
use octopus_simulator.Message.{Message, new_message, lower_interconnect}
use octopus_simulator.Cache.Line.{Line, new_line}
use octopus_simulator.Protocol.Llc.{is_owner}
use octopus_simulator.Protocol.Table.{Table}
use octopus_simulator.Directory.Private.Handle.{without_all}
use octopus_simulator.Directory.{
  DirectoryAction, set_sharers, send_fwd_message, Sharers, is_sharer, without_sharer,
}
use octopus_simulator.Directory.Private.{Place}
use octopus_simulator.Directory.Arrivals.{Arrival, acked, with_data, OnlyLast}
use octopus_simulator.Directory.Acks.{arrive_all, arrive_all-OnlyLast}
use octopus_simulator.Directory.Home.{home_event_from, put_s, last_put_s}
use octopus_simulator.Directory.Home.Handle.{
  answered, invalidate, owner_or_none, handle_home_msi, handle_home_mesi,
}
use octopus_simulator.Directory.Home.Moesi.{handle_home_moesi}
use octopus_simulator.Directory.Invalidations.{
  lined, handle_home_msi-counts, handle_home_moesi-counts,
}
use octopus_simulator.Directory.Sharers.{home_event_from-last}

abbrev cache : Place
cache = record { id = 1; memory = 9; key = 64 }

abbrev home : Place
home = record { id = 9; memory = 10; key = 64 }

abbrev get_m : Message
unfolding new_message
get_m = new_message 7 64 3 1 1

abbrev leaving : Message
unfolding new_message
leaving = new_message 8 64 3 2 2

abbrev arrivals : List Arrival
arrivals = acked get_m ∷ with_data get_m (5 ∷ []) ∷ acked get_m ∷ []

arrive_all-OnlyLast_example :
    (find (arrive_all cache 2 [] arrivals).0 64 ≡ none)
    × OnlyLast (arrive_all cache 2 [] arrivals).1
arrive_all-OnlyLast_example = arrive_all-OnlyLast cache 2 [] arrivals refl (omega arith) refl refl

abbrev shared : Sharers
shared = (64, 1 ∷ 2 ∷ 3 ∷ []) ∷ []

abbrev table : Table
table = record { states = []; action_ids = λ n. none }

abbrev line : Line
unfolding new_line
line = new_line

handle_home_msi-counts_example :
    (to : List ℕ) × (handle_home_msi table home shared (4 ∷ 2 ∷ 6 ∷ []) get_m line 5
      ≡ some (
          set_sharers get_m
          ∷ answered (length to) get_m
          ∷ invalidate get_m to
          ∷ lined table 5 get_m line
          ∷ []))
    × ((id : ℕ) → is_sharer to id ≡ (is_sharer (1 ∷ 2 ∷ 3 ∷ []) id && not (id == get_m.owner)))
unfolding is_sharer
handle_home_msi-counts_example =
    handle_home_msi-counts table home shared (1 ∷ 2 ∷ 3 ∷ []) get_m line 5 refl
      (refl, (refl, (refl, tt)))

home_event_from-last_example :
    home_event_from home shared none leaving lower_interconnect
    ≡ some (if is_some (find (without_sharer shared 64 2) 64) then put_s else last_put_s)
unfolding leaving
home_event_from-last_example = home_event_from-last home shared none leaving refl refl refl

abbrev owned : Line
owned = record line { owner_id = some 3 }

handle_home_moesi-counts_example :
    (to : List ℕ) × (before : List DirectoryAction) × (later : List DirectoryAction)
    × (handle_home_moesi table home shared (4 ∷ 6 ∷ 9 ∷ []) get_m owned 5
        ≡ some (
            (set_sharers get_m ∷ lined table 5 get_m owned ∷ [])
            ++ (before
                ++ (send_fwd_message (record get_m { complementary_value = 4; to = to })
                    ∷ send_fwd_message (record get_m {
                      complementary_value = 1;
                      to = owner_or_none owned.owner_id ∷ [];
                      complementary_value2 = length to;
                    })
                    ∷ later))))
    × ((id : ℕ)
        → is_sharer to id ≡ (
            is_sharer (1 ∷ 2 ∷ 3 ∷ []) id && not (id == get_m.owner || is_owner owned.owner_id id)))
unfolding handle_home_mesi get_m without_all
handle_home_moesi-counts_example =
    handle_home_moesi-counts table home shared (1 ∷ 2 ∷ 3 ∷ []) (4 ∷ 6 ∷ 9 ∷ []) get_m owned 5
      (set_sharers get_m ∷ lined table 5 get_m owned ∷ []) refl (omega arith) refl refl refl
