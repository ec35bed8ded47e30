-- ===== src/Directory/Private/Handle.antt =====
-- src/Protocols/MSIDirectory.cpp, MESIDirectory.cpp and MOESIDirectory.cpp: from a message to the actions of
-- the controller of a private cache.
use octopus_simulator.Common.{
  has_id, without_first, ℕ, Bool, Option, some, List, [], ◌∷◌, ◌++◌, ◌==◌, if◌then◌else◌, and_then,
}
use octopus_simulator.Message.{Message, unknown}
use octopus_simulator.Queue.{State, ready, non_ready}
use octopus_simulator.Cache.Line.{Line}
use octopus_simulator.Cache.Registers.{Handler, block_of}
use octopus_simulator.Protocol.Actions.{update_cache_line, send_bus_msg, write_back}
use octopus_simulator.Protocol.Table.{Table, get_transition, is_stall, is_valid_state}
use octopus_simulator.Protocol.Msi.{bits_of, stalls_first}
use octopus_simulator.Directory.{
  DirectoryAction, base, set_ack_number, Variant, msi, mesi, moesi, AckCounters,
}
use octopus_simulator.Directory.Private.{
  Place, read_event, event_number, handle_each, home_request, own_message,
}

-- MSIDirectory::handleAction.
unfoldable pub handle_msi :
    Table → Place → AckCounters → List ℕ → Message → Line → ℕ → Option (List DirectoryAction)
unfolding handle_each is_valid_state
handle_msi t p acks actions m line next =
    handle_each p acks m
      (if stalls_first actions
        then []
        else base
            (update_cache_line m (record line { valid = is_valid_state t next; state = next }))
          ∷ [])
      actions

unfoldable pub without_all : ℕ → List ℕ → List ℕ
without_all n [] = []
without_all n (a ∷ ids) = let rest = without_all n ids in if a == n then rest else a ∷ rest

abbrev pub if_has : Bool → DirectoryAction → List DirectoryAction
if_has b action = if b then action ∷ [] else []

-- MESIDirectory::handleAction: PutE.
unfoldable pub handle_mesi :
    Table → Place → AckCounters → List ℕ → Message → Line → ℕ → Option (List DirectoryAction)
unfolding handle_msi has_id without_first home_request
handle_mesi t p acks actions m line next =
    and_then (handle_msi t p acks (without_first 14 actions) m line next) (λ done.
      some (done ++ if_has (has_id 14 actions) (base (send_bus_msg (home_request p m 7 unknown)))))

-- MOESIDirectory::handleAction: PutO_Data, SetAck and Data2Req, whose copies are all taken out.
unfoldable pub handle_moesi :
    Table → Place → AckCounters → List ℕ → Message → Line → ℕ → Option (List DirectoryAction)
unfolding handle_mesi has_id without_all own_message
handle_moesi t p acks actions m line next =
    and_then
      (handle_mesi t p acks (without_all 7 (without_all 16 (without_all 15 actions))) m line next)
      (λ done. some (
        if_has (has_id 7 actions)
          (base (write_back (record m { complementary_value = m.complementary_value2; to = [] })))
        ++ (if_has (has_id 15 actions) (base (write_back (own_message p m 8 unknown)))
            ++ (done ++ if_has (has_id 16 actions) (set_ack_number m)))))

unfoldable pub handle_action :
    Variant
    → Table
    → Place
    → AckCounters
    → List ℕ
    → Message
    → Line
    → ℕ
    → Option (List DirectoryAction)
unfolding handle_msi handle_mesi handle_moesi
handle_action msi t p acks actions m line next = handle_msi t p acks actions m line next
handle_action mesi t p acks actions m line next = handle_mesi t p acks actions m line next
handle_action moesi t p acks actions m line next = handle_moesi t p acks actions m line next

abbrev pub place_of : ℕ → ℕ → Handler → Message → Place
place_of id memory h m = record { id = id; memory = memory; key = block_of h m.addr }

unfoldable pub process_request :
    Variant → Table → ℕ → ℕ → AckCounters → Handler → Message → Option (List DirectoryAction)
unfolding read_event event_number get_transition handle_action bits_of
process_request v t id memory acks h m =
    and_then (read_event v (place_of id memory h m) acks m) (λ e.
      and_then (get_transition t (bits_of h m).state (event_number e)) (λ (next, actions).
        handle_action v t (place_of id memory h m) acks actions m (bits_of h m) next))

unfoldable pub get_request_state :
    Variant → Table → ℕ → ℕ → AckCounters → Handler → Message → Option State
unfolding read_event event_number is_stall bits_of
get_request_state v t id memory acks h m =
    and_then (read_event v (place_of id memory h m) acks m)
      (λ e. some (if is_stall t (bits_of h m).state (event_number e) then non_ready else ready))
