-- ===== src/Replacement.antt =====
-- src/ReplacementPolicies/: the victim among the ways of a set. A mask of allowed ways has bit i for
-- way i; `rand()` is an argument. A way of -1 is `none`.
pub mod Oldest
pub mod Pick
pub mod Stamps
pub mod Recency
mod Tests
use octopus_simulator.Common.{
  ℕ, zero, suc, ◌+◌, ◌-◌, ◌/◌, ◌%◌, ◌^◌, Bool, true, false, ◌&&◌, ◌||◌, not, Option, none, some,
  List, [], ◌∷◌, ◌++◌, length, set, get_elem?, ltb, ◌==◌, if◌then◌else◌,
}

-- `mask & (1u << i)` is not 0.
abbrev pub has_bit : ℕ → ℕ → Bool
has_bit mask i = (mask / 2 ^ i) % 2 == 1

abbrev pub stamp_at : List ℕ → ℕ → ℕ
stamp_at [] i = 0
stamp_at (s ∷ stamps) zero = s
stamp_at (s ∷ stamps) (suc i) = stamp_at stamps i

-- LeastRecentlyUsed: `last_access_cycle`, from a set to the stamps of its ways.
abbrev pub Lru : Type 0
Lru = List (ℕ × List ℕ)

-- `last_access_cycle[set]`, which is empty for a new key.
unfoldable pub stamps_of : Lru → ℕ → List ℕ
stamps_of [] s = []
stamps_of ((k, stamps) ∷ lru) s = if k == s then stamps else stamps_of lru s

unfoldable pub put_stamps : Lru → ℕ → List ℕ → Lru
put_stamps [] s stamps = (s, stamps) ∷ []
put_stamps ((k, old) ∷ lru) s stamps =
    if k == s then (s, stamps) ∷ lru else (k, old) ∷ put_stamps lru s stamps

-- LeastRecentlyUsed::update on the stamps of one set, for a way that is not negative.
unfoldable pub touch : List ℕ → ℕ → ℕ → List ℕ
touch stamps way cycle =
    if ltb way (length stamps) then set stamps way cycle else stamps ++ cycle ∷ []

unfoldable pub lru_update : Lru → ℕ → Option ℕ → ℕ → Lru
unfolding stamps_of put_stamps touch
lru_update lru s none cycle = lru
lru_update lru s (some way) cycle = put_stamps lru s (touch (stamps_of lru s) way cycle)

-- The loop of the unrestricted `getReplacementCandidate`, over the stamps from way `i` on.
unfoldable pub oldest_from : List ℕ → ℕ → ℕ → ℕ → ℕ
oldest_from [] i way best = way
oldest_from (s ∷ stamps) i way best =
    oldest_from stamps (suc i) (if ltb s best then i else way) (if ltb s best then s else best)

unfoldable pub oldest_way : List ℕ → ℕ
unfolding oldest_from
oldest_way [] = 0
oldest_way (s ∷ stamps) = oldest_from stamps 1 0 s

-- The variables `*way` and `best` of the restricted `getReplacementCandidate`.
pub record Victim : Type 0 where
  pub way : Option ℕ
  pub best : ℕ

abbrev pub beats : ℕ → Victim → Bool
beats stamp v = elim v.way [ none ↦ true | some w ↦ ltb stamp v.best ]

-- One round of its loop, at way `i`.
unfoldable pub consider : List ℕ → ℕ → ℕ → Victim → Victim
consider stamps allowed i v =
    if has_bit allowed i && beats (stamp_at stamps i) v
    then record { way = some i; best = stamp_at stamps i }
    else v

-- The loop over the first `ways` ways.
unfoldable pub consider_below : List ℕ → ℕ → ℕ → Victim
unfolding consider
consider_below stamps allowed zero = record { way = none; best = 0 }
consider_below stamps allowed (suc ways) =
    consider stamps allowed ways (consider_below stamps allowed ways)

unfoldable pub lru_candidate : Lru → ℕ → ℕ → ℕ → ℕ
unfolding consider_below oldest_way stamps_of
lru_candidate lru ways s allowed = elim (consider_below (stamps_of lru s) allowed ways).way [
  | some way ↦ way
  | none ↦ oldest_way (stamps_of lru s)
]

-- Random: the loop that counts the allowed ways, with the ways from `i` on that are left.
unfoldable pub count_from : ℕ → ℕ → ℕ → ℕ
count_from allowed i zero = 0
count_from allowed i (suc left) =
    (if has_bit allowed i then 1 else 0) + count_from allowed (suc i) left

-- The loop that takes the allowed way number `k`, with the ways from `i` on that are left.
unfoldable pub pick_from : ℕ → ℕ → ℕ → ℕ → Option ℕ
pick_from allowed k i zero = none
pick_from allowed k i (suc left) =
    let rest = pick_from allowed (if has_bit allowed i then k - 1 else k) (suc i) left in
    if has_bit allowed i && (k == 0) then some i else rest

unfoldable pub random_candidate : ℕ → ℕ → ℕ → Option ℕ
unfolding count_from pick_from
random_candidate rand ways allowed =
    if count_from allowed 0 ways == 0
    then some (rand % ways)
    else pick_from allowed (rand % count_from allowed 0 ways) 0 ways
