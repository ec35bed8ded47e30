-- ===== src/Directory/Sharers.antt =====
-- LLCMSIDirectory and CacheControllerDirectory together: when a sharer that leaves is read as the last one.
use octopus_simulator.Common.{
  ℕ, ◌≡◌, refl, sym, ap, ◌∙◌, Bool, true, false, Option, none, some, List, [], ◌∷◌, find, find_all,
  put, drop_key, find-put, ◌==◌, if◌then◌else◌, Bool-cases, if_keeps, inl, inr, is_some,
}
use octopus_simulator.Message.{Message, lower_interconnect}
use octopus_simulator.Directory.{Sharers, is_sharer, erase_sharer, store_sharers, without_sharer}
use octopus_simulator.Directory.Private.{Place}
use octopus_simulator.Directory.Home.{
  HomeEvent, put_s, last_put_s, is_only, request_event, home_event_from,
}

-- What DecSharers leaves of these sharers of the line.
abbrev left : Sharers → ℕ → ℕ → List ℕ → Sharers
unfolding is_sharer erase_sharer store_sharers
left sharers key id ids =
    if is_sharer ids id
    then store_sharers sharers key (erase_sharer ids id)
    else put sharers key ids

abbrev none_left : Sharers → ℕ → Bool
none_left sharers key = if is_some (find sharers key) then false else true

abbrev listed : Option (List ℕ) → List ℕ
listed none = []
listed (some ids) = ids

none_left-put :
    (sharers : Sharers) (key : ℕ) (ids : List ℕ) → none_left (put sharers key ids) key ≡ false
none_left-put sharers key ids = rw (find-put sharers key ids)

is_only-left :
    (sharers : Sharers) (key id : ℕ) (o : Option (List ℕ))
    → find (drop_key sharers key) key ≡ none
    → is_only o id ≡ none_left (left sharers key id (listed o)) key
unfolding is_only is_sharer erase_sharer store_sharers
is_only-left sharers key id none h = sym (none_left-put sharers key [])
is_only-left sharers key id (some []) h = sym (none_left-put sharers key [])
is_only-left sharers key id (some (s ∷ [])) h = elim (Bool-cases (s == id)) [
  | inl e ↦ rw (e, h)
  | inr e ↦ rw (e, find-put sharers key (s ∷ []))
]
is_only-left sharers key id (some (s ∷ t ∷ ss)) h =
    if_keeps (λ x. false ≡ none_left x key) (is_sharer (s ∷ t ∷ ss) id)
      (λ _.
        if_keeps (λ l. false ≡ none_left (store_sharers sharers key l) key) (s == id)
          (λ _. sym (none_left-put sharers key (t ∷ ss)))
          (λ _. sym (none_left-put sharers key (s ∷ erase_sharer (t ∷ ss) id))))
      (λ _. sym (none_left-put sharers key (s ∷ t ∷ ss)))

elim-listed :
    (o : Option (List ℕ)) → (elim o as (λ _. List ℕ) [ none ↦ [] | some ids ↦ ids ]) ≡ listed o
elim-listed none = refl
elim-listed (some ids) = refl

find_all-listed : (sharers : Sharers) (key : ℕ) → find_all sharers key ≡ listed (find sharers key)
find_all-listed sharers key = elim-listed (find sharers key)

abbrev last_if : Bool → Option HomeEvent
last_if b = some (if b then last_put_s else put_s)

last_if-not :
    (b : Bool) → last_if (if b then false else true) ≡ some (if b then put_s else last_put_s)
last_if-not true = refl
last_if-not false = refl

-- A PutS from below, read by the home node: if the line has one entry at most, it is read as that of
-- the last sharer exactly if DecSharers for its sender leaves the line without an entry.
pub home_event_from-last :
    (p : Place) (sharers : Sharers) (owner : Option ℕ) (m : Message)
    → m.payload ≡ none
    → m.complementary_value ≡ 2
    → find (drop_key sharers p.key) p.key ≡ none
    → home_event_from p sharers owner m lower_interconnect
      ≡ some (
          if is_some (find (without_sharer sharers p.key m.owner) p.key) then put_s else last_put_s)
unfolding home_event_from request_event without_sharer left
home_event_from-last p sharers owner m e v h =
    rw (e, v)
      (ap last_if (is_only-left sharers p.key m.owner (find sharers p.key) h)
        ∙ last_if-not (is_some (find (remains (listed (find sharers p.key))) p.key))
        ∙ ap (λ ids. some (if is_some (find (remains ids) p.key) then put_s else last_put_s))
            (sym (find_all-listed sharers p.key)))
  where
    remains : List ℕ → Sharers
    remains = left sharers p.key m.owner
