-- ===== src/Directory/Invalidations.antt =====
-- LLCMSIDirectory and LLCMOESIDirectory: the acknowledgements that a requester is told to wait for, and
-- the nodes that are told to send one.
use octopus_simulator.Common.{
  has_id, ℕ, suc, ◌≡◌, ◌≢◌, refl, sym, ap, ◌∙◌, subst, true, false, ◌&&◌, ◌||◌, not, Option, some,
  List, [], ◌∷◌, ◌++◌, length, find, ◌==◌, Bool-cases, ==→eq, inl, inr, arith,
}
use octopus_simulator.Message.{Message}
use octopus_simulator.Cache.Line.{Line}
use octopus_simulator.Protocol.Actions.{update_cache_line}
use octopus_simulator.Protocol.Table.{Table, is_valid_state}
use octopus_simulator.Protocol.Llc.{is_owner}
use octopus_simulator.Directory.{
  DirectoryAction, base, set_sharers, send_fwd_message, Sharers, is_sharer,
}
use octopus_simulator.Directory.Private.{Place}
use octopus_simulator.Directory.Private.Handle.{without_all, if_has}
use octopus_simulator.Directory.Home.Handle.{
  count_others, others, answered, invalidate, owner_or_none, handle_home_one, handle_home_each,
  home_action, handle_home_msi, handle_home_mesi,
}
use octopus_simulator.Directory.Home.Moesi.{
  invalidated, count_invalidated, invalidation_of, forward_get_m, count_message, invalidate_owner,
  handle_home_moesi,
}

-- No id stands twice.
abbrev pub IsDistinct : List ℕ → Type 0
IsDistinct [] = Unit
IsDistinct (s ∷ ss) = (is_sharer ss s ≡ false) × IsDistinct ss

others-absent : (ids : List ℕ) (id : ℕ) → is_sharer ids id ≡ false → others ids id ≡ ids
unfolding others is_sharer
others-absent [] id h = refl
others-absent (s ∷ ss) id h = ground (arith, others-absent ss id)

others-present :
    (ids : List ℕ) (id : ℕ)
    → IsDistinct ids
    → is_sharer ids id ≡ true
    → suc (length (others ids id)) ≡ length ids
unfolding others is_sharer
others-present [] id d h = cc
others-present (s ∷ ss) id d h = elim (Bool-cases (s == id)) [
  | inl e ↦ rw e (
      ap (λ (l : List ℕ). suc (length l))
        (others-absent ss id (subst (λ k. is_sharer ss k ≡ false) (==→eq s id e) d.0)))
  | inr e ↦
      rw e (ap suc (others-present ss id d.1 (subst (λ b. (b || is_sharer ss id) ≡ true) e h)))
]

length-others :
    (ids : List ℕ) (id : ℕ) → IsDistinct ids → length (others ids id) ≡ count_others (some ids) id
unfolding count_others
length-others ids id d = elim (Bool-cases (is_sharer ids id)) [
  | inl e ↦ rw e (omega (arith, others-present ids id d e))
  | inr e ↦ rw e (ap length (others-absent ids id e))
]

is_sharer-others :
    (ids : List ℕ) (id s : ℕ) → is_sharer (others ids id) s ≡ (is_sharer ids s && not (s == id))
unfolding others is_sharer
is_sharer-others [] id s = refl
is_sharer-others (t ∷ ts) id s = ground (arith, is_sharer-others ts id s)

length-invalidated :
    (p : Place) (old_owner : Option ℕ) (m : Message) (ids : List ℕ)
    → m.owner ≢ p.id
    → length (invalidated p old_owner m ids) ≡ count_invalidated old_owner m ids
unfolding invalidated count_invalidated
length-invalidated p old_owner m [] h = refl
length-invalidated p old_owner m (s ∷ ss) h = ground (arith, length-invalidated p old_owner m ss)

abbrev pub lined : Table → ℕ → Message → Line → DirectoryAction
lined t next m line = base (
    update_cache_line m
      (record line { owner_id = some m.owner; valid = is_valid_state t next; state = next }))

-- A write request for a shared line, with the actions SetOwner, SendData and SendInv: if no id stands
-- twice among the sharers, the answer tells the requester to wait for as many acknowledgements as
-- there are invalidations, which go to exactly the sharers that are not the requester.
pub handle_home_msi-counts :
    (t : Table) (p : Place) (sharers : Sharers) (ids : List ℕ) (m : Message) (line : Line)
    (next : ℕ)
    → find sharers p.key ≡ some ids
    → IsDistinct ids
    → (to : List ℕ) × (handle_home_msi t p sharers (4 ∷ 2 ∷ 6 ∷ []) m line next
        ≡ some
            (set_sharers m ∷ answered (length to) m ∷ invalidate m to ∷ lined t next m line ∷ []))
      × ((id : ℕ) → is_sharer to id ≡ (is_sharer ids id && not (id == m.owner)))
unfolding handle_home_msi handle_home_each handle_home_one home_action
handle_home_msi-counts t p sharers ids m line next f d = (
  others ids m.owner,
  rw f (
      ap
        (λ n. some (
          set_sharers m
          ∷ answered n m
          ∷ invalidate m (others ids m.owner)
          ∷ lined t next m line
          ∷ []))
        (sym (length-others ids m.owner d))),
  is_sharer-others ids m.owner,
)

is_sharer-invalidated :
    (p : Place) (old_owner : Option ℕ) (m : Message) (ids : List ℕ) (s : ℕ)
    → m.owner ≢ p.id
    → is_sharer (invalidated p old_owner m ids) s
      ≡ (is_sharer ids s && not (s == m.owner || is_owner old_owner s))
unfolding invalidated is_sharer
is_sharer-invalidated p old_owner m [] s h = refl
is_sharer-invalidated p old_owner m (t ∷ ts) s h =
    ground (arith, is_sharer-invalidated p old_owner m ts s)

-- A write request of another node for a line with an earlier owner, with SendInv and FwdGetM among the
-- actions: if the other actions do not exit, the forwarded request carries the number of
-- invalidations, which go to exactly the sharers that are neither the requester nor the owner.
pub handle_home_moesi-counts :
    (t : Table) (p : Place) (sharers : Sharers) (ids actions : List ℕ) (m : Message) (line : Line)
    (next : ℕ) (done : List DirectoryAction)
    → find sharers p.key ≡ some ids
    → m.owner ≢ p.id
    → has_id 6 actions ≡ true
    → has_id 9 actions ≡ true
    → handle_home_mesi t p sharers
        (without_all 16 (without_all 9 (without_all 6 (without_all 15 actions))))
        m
        line
        next
      ≡ some done
    → (to : List ℕ) × (before : List DirectoryAction) × (later : List DirectoryAction)
      × (handle_home_moesi t p sharers actions m line next
          ≡ some (
              done
              ++ (before
                  ++ (send_fwd_message (record m { complementary_value = 4; to = to })
                      ∷ send_fwd_message (record m {
                        complementary_value = 1;
                        to = owner_or_none line.owner_id ∷ [];
                        complementary_value2 = length to;
                      })
                      ∷ later))))
      × ((id : ℕ)
          → is_sharer to id
            ≡ (is_sharer ids id && not (id == m.owner || is_owner line.owner_id id)))
unfolding handle_home_moesi invalidation_of forward_get_m
handle_home_moesi-counts t p sharers ids actions m line next done f o i j h = (
  invalidated p line.owner_id m ids,
  if_has (has_id 15 actions) (count_message p sharers m),
  if_has (has_id 16 actions) (invalidate_owner line.owner_id m),
  let e : handle_home_moesi t p sharers actions m line next
          ≡ answer (count_invalidated line.owner_id m ids) =
        rw (h, i, j, f) in
      e ∙ ap answer (sym (length-invalidated p line.owner_id m ids o)),
  λ id. is_sharer-invalidated p line.owner_id m ids id o,
)
  where
    answer : ℕ → Option (List DirectoryAction)
    answer n = some (
        done
        ++ (if_has (has_id 15 actions) (count_message p sharers m)
            ++ (send_fwd_message
                  (record m { complementary_value = 4; to = invalidated p line.owner_id m ids })
                ∷ send_fwd_message (record m {
                  complementary_value = 1;
                  to = owner_or_none line.owner_id ∷ [];
                  complementary_value2 = n;
                })
                ∷ if_has (has_id 16 actions) (invalidate_owner line.owner_id m))))
