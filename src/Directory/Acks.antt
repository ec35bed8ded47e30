-- ===== src/Directory/Acks.antt =====
-- MSIDirectory and CacheControllerDirectory together: the acknowledgements that a private cache collects
-- for a line it wants to write.
use octopus_simulator.Common.{
  drop_key-absent, ℕ, suc, ◌+◌, ◌<◌, ◌≡◌, ◌≢◌, ap, ◌∙◌, subst, Bool, true, false, none, List, [],
  ◌∷◌, length, find, if◌then◌else◌, sub_ℕ, is_zero, arith,
}
use octopus_simulator.Message.{Message}
use octopus_simulator.Directory.{AckCounters}
use octopus_simulator.Directory.Private.{Place}
use octopus_simulator.Directory.Counters.{
  stored, Counts, minus_one-sub_ℕ, add_ℕ-sub_ℕ, sub_ℕ-self, is_zero-sub_ℕ,
}
use octopus_simulator.Directory.Arrivals.{
  Arrival, acked, with_data, message_of, arrive, acks_of, data_of, OnlyLast, Arrived, arrive-acked,
  arrive-with_data,
}

-- Messages one by one, and which of them are read as the end.
pub arrive_all : Place → ℕ → AckCounters → List Arrival → AckCounters × List Bool
arrive_all p n acks [] = (acks, [])
arrive_all p n acks (a ∷ rest) =
    let (acks', done) = arrive p acks (message_of p n a) in
    let (last, flags) = arrive_all p n acks' rest in (last, done ∷ flags)

-- The data's count if they have come.
abbrev expected : Bool → ℕ → ℕ
expected seen n = if seen then n else 0

acked-Arrived :
    (p : Place) (n : ℕ) (acks : AckCounters) (m : Message) (x a : ℕ)
    → Counts acks p.key (sub_ℕ x a)
    → Arrived p.key (sub_ℕ x (suc a)) (arrive p acks (message_of p n (acked m)))
acked-Arrived p n acks m x a c =
    subst (λ w. Arrived p.key w (arrive p acks (message_of p n (acked m)))) (minus_one-sub_ℕ x a)
      (arrive-acked p n acks m (sub_ℕ x a) c)

with_data-Arrived :
    (p : Place) (n : ℕ) (acks : AckCounters) (m : Message) (bytes : List ℕ) (a : ℕ)
    → 0 < n
    → Counts acks p.key (sub_ℕ 0 a)
    → Arrived p.key (sub_ℕ n a) (arrive p acks (message_of p n (with_data m bytes)))
with_data-Arrived p n acks m bytes a h c =
    subst (λ w. Arrived p.key w (arrive p acks (message_of p n (with_data m bytes))))
      (add_ℕ-sub_ℕ a n) (arrive-with_data p n acks m bytes (sub_ℕ 0 a) h c)

Arrived-end :
    (key x a : ℕ) (r : AckCounters × Bool)
    → Arrived key (sub_ℕ x a) r
    → x ≡ a
    → (find r.0 key ≡ none) × (r.1 ≡ true)
Arrived-end key x a r ((f, o), b) e =
    (f ∙ ap stored (sub_ℕ-self x a e), b ∙ ap is_zero (sub_ℕ-self x a e))

length-arrivals : (es : List Arrival) → length es ≡ acks_of es + data_of es
length-arrivals [] = omega arith
length-arrivals (acked m ∷ es) = omega (arith, length-arrivals es)
length-arrivals (with_data m bytes ∷ es) = omega (arith, length-arrivals es)

-- The count is not complete while `k` acknowledgements and `j` data are still to come.
expected-ne :
    (seen : Bool) (n a k j : ℕ)
    → j + (if seen then 1 else 0) ≡ 1
    → a + k ≡ n
    → 0 < k + j
    → 0 < a + (if seen then 1 else 0)
    → expected seen n ≢ a
expected-ne false n a k j d e h g = λ q. absurd (omega arith)
expected-ne true n a k j d e h g = λ q. absurd (omega arith)

-- `seen` tells whether the data have come, and `a` acknowledgements have.
arrive_all-Completes :
    (p : Place) (n : ℕ) (acks : AckCounters) (seen : Bool) (a : ℕ) (es : List Arrival)
    → 0 < n
    → Counts acks p.key (sub_ℕ (expected seen n) a)
    → data_of es + (if seen then 1 else 0) ≡ 1
    → a + acks_of es ≡ n
    → 0 < length es
    → (find (arrive_all p n acks es).0 p.key ≡ none) × OnlyLast (arrive_all p n acks es).1
unfolding arrive_all
arrive_all-Completes p n acks seen a [] h c d k l = absurd (omega arith)
arrive_all-Completes p n acks false a (acked m ∷ []) h c d k l = absurd (omega arith)
arrive_all-Completes p n acks true a (acked m ∷ []) h c d k l =
    Arrived-end p.key n (suc a) (arrive p acks (message_of p n (acked m)))
      (acked-Arrived p n acks m n a c) (omega arith)
arrive_all-Completes p n acks seen a (acked m ∷ e ∷ es) h c d k l =
    let step = acked-Arrived p n acks m (expected seen n) a c in
    let rest =
      arrive_all-Completes p n (arrive p acks (message_of p n (acked m))).0 seen (suc a) (e ∷ es) h
        step.0 d (omega arith) (omega arith) in
    (
      rest.0,
      (
        step.1
            ∙ is_zero-sub_ℕ (expected seen n) (suc a) (
                expected-ne seen n (suc a) (acks_of (e ∷ es)) (data_of (e ∷ es)) d
                  (omega (arith, k)) (omega (arith, length-arrivals (e ∷ es))) (omega arith)),
        rest.1,
      ),
    )
arrive_all-Completes p n acks true a (with_data m bytes ∷ es) h c d k l = absurd (omega arith)
arrive_all-Completes p n acks false a (with_data m bytes ∷ []) h c d k l =
    Arrived-end p.key n a (arrive p acks (message_of p n (with_data m bytes)))
      (with_data-Arrived p n acks m bytes a h c) (omega arith)
arrive_all-Completes p n acks false a (with_data m bytes ∷ e ∷ es) h c d k l =
    let step = with_data-Arrived p n acks m bytes a h c in
    let rest =
      arrive_all-Completes p n (arrive p acks (message_of p n (with_data m bytes))).0 true a
        (e ∷ es) h step.0 (omega arith) k (omega arith) in
    (
      rest.0,
      (
        step.1
            ∙ is_zero-sub_ℕ n a (
                expected-ne true n a (acks_of (e ∷ es)) (data_of (e ∷ es)) (omega (arith, d)) k
                  (omega (arith, length-arrivals (e ∷ es))) (omega arith)),
        rest.1,
      ),
    )

-- A private cache that waits for a line with no counter yet gets `n` acknowledgements, `n` above 0, and
-- the home node's data with the count `n`, in any order. Then the last message to come is read as the
-- end of the wait and no other is, and no counter is left for the line.
pub arrive_all-OnlyLast :
    (p : Place) (n : ℕ) (acks : AckCounters) (es : List Arrival)
    → find acks p.key ≡ none
    → 0 < n
    → acks_of es ≡ n
    → data_of es ≡ 1
    → (find (arrive_all p n acks es).0 p.key ≡ none) × OnlyLast (arrive_all p n acks es).1
arrive_all-OnlyLast p n acks es f h k d =
    arrive_all-Completes p n acks false 0 es h
      (f, ap (λ m. find m p.key) (drop_key-absent acks p.key f) ∙ f) (omega arith) (omega arith)
      (omega (arith, length-arrivals es))
