-- ===== src/Directory/Home/Moesi.antt =====
-- src/Protocols/LLCMOESIDirectory.cpp: the actions that the MOESI home node handles itself, and the entry points
-- of the three protocols.
use octopus_simulator.Common.{
  has_id, ℕ, suc, Bool, true, false, ◌&&◌, ◌||◌, not, Option, some, List, [], ◌∷◌, ◌++◌, find, ◌==◌,
  if◌then◌else◌, and_then, is_some,
}
use octopus_simulator.Message.{Message, new_message}
use octopus_simulator.Cache.Line.{Line}
use octopus_simulator.Cache.Registers.{Handler}
use octopus_simulator.Protocol.Llc.{is_owner}
use octopus_simulator.Protocol.Msi.{bits_of}
use octopus_simulator.Protocol.Table.{
  Table, get_transition, is_stall, has_action, send_data_name, send_exclusive_data_name,
  save_data_name,
}
use octopus_simulator.Directory.{
  DirectoryAction, send_fwd_message, Variant, msi, mesi, moesi, Sharers,
}
use octopus_simulator.Directory.Private.{Place}
use octopus_simulator.Directory.Private.Handle.{without_all, if_has, place_of}
use octopus_simulator.Directory.Home.{read_home_event, home_number}
use octopus_simulator.Directory.Home.Handle.{
  count_others, owner_or_none, handle_home_msi, handle_home_mesi,
}

unfoldable pub count_message : Place → Sharers → Message → DirectoryAction
unfolding new_message count_others
count_message p sharers m = send_fwd_message (record (new_message m.msg_id m.addr 0 0 p.id) {
  to = m.owner ∷ [];
  complementary_value2 = 9;
  complementary_value = count_others (find sharers p.key) m.owner;
})

-- The destinations of SendInv: an earlier owner is skipped too, unless this node asks.
unfoldable pub invalidated : Place → Option ℕ → Message → List ℕ → List ℕ
invalidated p old_owner m [] = []
invalidated p old_owner m (s ∷ ss) =
    let rest = invalidated p old_owner m ss in
    if s == m.owner || (is_owner old_owner s && not (m.owner == p.id)) then rest else s ∷ rest

-- The loop of FwdGetM that counts into `complementary_value2`.
unfoldable pub count_invalidated : Option ℕ → Message → List ℕ → ℕ
count_invalidated old_owner m [] = 0
count_invalidated old_owner m (s ∷ ss) =
    let rest = count_invalidated old_owner m ss in
    if s == m.owner || is_owner old_owner s then rest else suc rest

unfoldable pub invalidation_of : Place → Option ℕ → Message → List ℕ → DirectoryAction
unfolding invalidated
invalidation_of p old_owner m ids =
    send_fwd_message (record m { complementary_value = 4; to = invalidated p old_owner m ids })

unfoldable pub forward_get_m : Option ℕ → Message → List ℕ → DirectoryAction
unfolding count_invalidated
forward_get_m old_owner m ids = send_fwd_message (record m {
  complementary_value = 1;
  to = owner_or_none old_owner ∷ [];
  complementary_value2 = count_invalidated old_owner m ids;
})

unfoldable pub invalidate_owner : Option ℕ → Message → DirectoryAction
invalidate_owner old_owner m =
    send_fwd_message (record m { complementary_value = 10; to = owner_or_none old_owner ∷ [] })

-- The sharers, if an action needs them; `at` throws without them.
abbrev pub ids_if : Bool → Option (List ℕ) → Option (List ℕ)
ids_if false ids = some []
ids_if true ids = ids

-- LLCMOESIDirectory::handleAction.
unfoldable pub handle_home_moesi :
    Table → Place → Sharers → List ℕ → Message → Line → ℕ → Option (List DirectoryAction)
unfolding handle_home_mesi has_id without_all count_message invalidation_of forward_get_m
    invalidate_owner
handle_home_moesi t p sharers actions m line next =
    and_then
      (handle_home_mesi t p sharers
        (without_all 16 (without_all 9 (without_all 6 (without_all 15 actions)))) m line next)
      (λ done. and_then (ids_if (has_id 6 actions || has_id 9 actions) (find sharers p.key)) (λ ids.
        some (
          done
          ++ (if_has (has_id 15 actions) (count_message p sharers m)
              ++ (if_has (has_id 6 actions) (invalidation_of p line.owner_id m ids)
                  ++ (if_has (has_id 9 actions) (forward_get_m line.owner_id m ids)
                      ++ if_has (has_id 16 actions) (invalidate_owner line.owner_id m)))))))

unfoldable pub handle_home :
    Variant → Table → Place → Sharers → List ℕ → Message → Line → ℕ → Option (List DirectoryAction)
unfolding handle_home_msi handle_home_mesi handle_home_moesi
handle_home msi t p sharers actions m line next = handle_home_msi t p sharers actions m line next
handle_home mesi t p sharers actions m line next = handle_home_mesi t p sharers actions m line next
handle_home moesi t p sharers actions m line next =
    handle_home_moesi t p sharers actions m line next

unfoldable pub process_home :
    Variant → Table → ℕ → ℕ → Sharers → Handler → Message → Option (List DirectoryAction)
unfolding read_home_event home_number get_transition handle_home bits_of
process_home v t id memory sharers h m =
    and_then (read_home_event v (place_of id memory h m) sharers m (bits_of h m)) (λ e.
      and_then (get_transition t (bits_of h m).state (home_number e)) (λ (next, actions).
        handle_home v t (place_of id memory h m) sharers actions m (bits_of h m) next))

-- `getRequestState`: whether it is ready.
unfoldable pub is_home_ready : Variant → Table → ℕ → ℕ → Sharers → Handler → Message → Option Bool
unfolding read_home_event home_number is_stall bits_of
is_home_ready v t id memory sharers h m =
    and_then (read_home_event v (place_of id memory h m) sharers m (bits_of h m))
      (λ e. some (is_some m.payload || not (is_stall t (bits_of h m).state (home_number e))))

unfoldable pub home_needs_array :
    Variant → Table → ℕ → ℕ → Sharers → Handler → Message → Option Bool
unfolding read_home_event home_number has_action bits_of
home_needs_array v t id memory sharers h m =
    and_then (read_home_event v (place_of id memory h m) sharers m (bits_of h m)) (λ e. some (
      has_action t (bits_of h m).state (home_number e) send_data_name
      || has_action t (bits_of h m).state (home_number e) send_exclusive_data_name
      || has_action t (bits_of h m).state (home_number e) save_data_name))
