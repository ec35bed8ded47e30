-- ===== src/Directory/Home/Handle.antt =====
-- src/Protocols/LLCMSIDirectory.cpp, LLCMESIDirectory.cpp and LLCMOESIDirectory.cpp: from a message to the
-- actions of the home node's controller.

use octopus_simulator.Common.{
  has_id, without_first, ℕ, ◌-◌, Option, none, some, List, [], ◌∷◌, ◌++◌, length, get_elem?, find,
  ◌==◌, if◌then◌else◌, and_then, is_some,
}
use octopus_simulator.Message.{Message, new_message, resp, inv, fwd, ack, mem_write, is_lower}
use octopus_simulator.Cache.Line.{Line}
use octopus_simulator.Protocol.Actions.{
  remove_pending, hit_action, add_pending, send_bus_msg, write_back, update_cache_line, no_action,
  uninitialised,
}
use octopus_simulator.Protocol.Llc.{memory_read}
use octopus_simulator.Protocol.Table.{Table, is_valid_state}
use octopus_simulator.Directory.{
  DirectoryAction, base, increment_sharers, decrement_sharers, set_sharers, send_fwd_message,
  Sharers, is_sharer,
}
use octopus_simulator.Directory.Private.{Place}
use octopus_simulator.Directory.Private.Handle.{if_has}

-- The actions that `LLCMSIDirectory::handleAction` has a case for.
pub data HomeAction : Type 0 where
  stall get_data send_data save_data set_owner clear_owner send_inv back fwd_get_s : HomeAction
  fwd_get_m put_ack inc_sharers dec_sharers fault unknown_action : HomeAction

unfoldable pub home_action : ℕ → HomeAction
home_action n =
    elim (get_elem?
      (stall ∷ get_data ∷ send_data ∷ save_data ∷ set_owner ∷ clear_owner ∷ send_inv ∷ back
        ∷ fwd_get_s ∷ fwd_get_m ∷ put_ack ∷ inc_sharers ∷ dec_sharers ∷ fault ∷ [])
      n) [ none ↦ unknown_action | some a ↦ a ]

-- The sharers but the requester, as a count that goes with data.
unfoldable pub count_others : Option (List ℕ) → ℕ → ℕ
unfolding is_sharer
count_others none id = 0
count_others (some ids) id = if is_sharer ids id then length ids - 1 else length ids

-- The loop that skips the message's owner.
unfoldable pub others : List ℕ → ℕ → List ℕ
others [] id = []
others (s ∷ ss) id = if s == id then others ss id else s ∷ others ss id

unfoldable pub answered : ℕ → Message → DirectoryAction
answered count m =
    let answer = record m { to = m.owner ∷ []; kind = resp; complementary_value = count } in
    base (if is_lower m.source then hit_action answer else remove_pending answer)

-- An owner as a destination, a uint16.
abbrev pub owner_or_none : Option ℕ → ℕ
owner_or_none none = 65535
owner_or_none (some owner) = owner

unfoldable pub forward_to : Option ℕ → Message → ℕ → DirectoryAction
forward_to old_owner m value =
    send_fwd_message
      (record m { complementary_value = value; kind = fwd; to = owner_or_none old_owner ∷ [] })

unfoldable pub invalidate : Message → List ℕ → DirectoryAction
invalidate m to = send_fwd_message (record m { complementary_value = 4; kind = inv; to = to })

unfoldable pub acknowledge : Place → Message → DirectoryAction
unfolding new_message
acknowledge p m =
    send_fwd_message
      (record (new_message m.msg_id m.addr 0 5 p.id) { to = m.owner ∷ []; kind = ack })

unfoldable pub memory_write : Place → Message → Message
unfolding new_message
memory_write p m = record (new_message m.msg_id m.addr 0 0 p.id) { kind = mem_write }

-- The line and the actions so far.
abbrev pub Progress : Type 0
Progress = Line × List DirectoryAction

-- One round of the loop of `handleAction`.
unfoldable pub handle_home_one :
    Place → Sharers → Option ℕ → Message → Progress → HomeAction → Option Progress
unfolding answered count_others forward_to invalidate acknowledge memory_write memory_read others
handle_home_one p sharers old_owner m (line, done) stall = none
handle_home_one p sharers old_owner m (line, done) get_data =
    some (line, done ++ base (add_pending m) ∷ base (send_bus_msg (memory_read p.memory m)) ∷ [])
handle_home_one p sharers old_owner m (line, done) send_data = some (
  line,
  done
      ++ answered (if is_some line.owner_id then count_others (find sharers p.key) m.owner else 0) m
        ∷ [],
)
handle_home_one p sharers old_owner m (line, done) save_data =
    some (line, done ++ base no_action ∷ [])
handle_home_one p sharers old_owner m (line, done) set_owner =
    some (record line { owner_id = some m.owner }, done ++ set_sharers m ∷ [])
handle_home_one p sharers old_owner m (line, done) clear_owner =
    some (record line { owner_id = none }, done ++ base no_action ∷ [])
handle_home_one p sharers old_owner m (line, done) send_inv =
    and_then (find sharers p.key)
      (λ ids. some (line, done ++ invalidate m (others ids m.owner) ∷ []))
handle_home_one p sharers old_owner m (line, done) back =
    some (line, done ++ base (write_back (memory_write p m)) ∷ [])
handle_home_one p sharers old_owner m (line, done) fwd_get_s =
    some (line, done ++ forward_to old_owner m 0 ∷ [])
handle_home_one p sharers old_owner m (line, done) fwd_get_m =
    some (line, done ++ forward_to old_owner m 1 ∷ [])
handle_home_one p sharers old_owner m (line, done) put_ack =
    some (line, done ++ acknowledge p m ∷ [])
handle_home_one p sharers old_owner m (line, done) inc_sharers =
    some (line, done ++ increment_sharers m ∷ [])
handle_home_one p sharers old_owner m (line, done) dec_sharers =
    some (line, done ++ decrement_sharers m ∷ [])
handle_home_one p sharers old_owner m (line, done) fault = none
handle_home_one p sharers old_owner m (line, done) unknown_action =
    some (line, done ++ base uninitialised ∷ [])

unfoldable pub handle_home_each :
    Place → Sharers → Option ℕ → Message → Progress → List ℕ → Option Progress
unfolding handle_home_one home_action
handle_home_each p sharers old_owner m q [] = some q
handle_home_each p sharers old_owner m q (a ∷ ids) =
    and_then (handle_home_one p sharers old_owner m q (home_action a))
      (λ q'. handle_home_each p sharers old_owner m q' ids)

-- LLCMSIDirectory::handleAction.
unfoldable pub handle_home_msi :
    Table → Place → Sharers → List ℕ → Message → Line → ℕ → Option (List DirectoryAction)
unfolding handle_home_each is_valid_state
handle_home_msi t p sharers actions m line next =
    and_then (handle_home_each p sharers line.owner_id m (line, []) actions) (λ (line', done).
      some (
        done
        ++ base (update_cache_line m (record line' { valid = is_valid_state t next; state = next }))
          ∷ []))

-- The answer of SendEData.
unfoldable pub exclusive_answered : Message → DirectoryAction
exclusive_answered m =
    let answer = record m { to = m.owner ∷ []; complementary_value = 0xFFFFFFFF } in
    base (if is_lower m.source then hit_action answer else remove_pending answer)

unfoldable pub handle_home_mesi :
    Table → Place → Sharers → List ℕ → Message → Line → ℕ → Option (List DirectoryAction)
unfolding handle_home_msi has_id without_first exclusive_answered
handle_home_mesi t p sharers actions m line next =
    and_then (handle_home_msi t p sharers (without_first 14 actions) m line next)
      (λ done. some (done ++ if_has (has_id 14 actions) (exclusive_answered m)))
