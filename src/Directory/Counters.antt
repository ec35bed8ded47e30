-- ===== src/Directory/Counters.antt =====
-- CacheControllerDirectory: what a counter of acknowledgements holds after a change.
use octopus_simulator.Common.{
  ℕ, zero, suc, ◌≡◌, ◌≢◌, refl, ap, ◌∙◌, true, false, Option, none, some, find, drop_key, find-put,
  drop_key-put, drop_key-absent, if◌then◌else◌, Bool-cases, inl, inr, ℤ, pos, negsuc, sub_ℕ, add_ℕ,
  minus_one, is_zero, arith,
}
use octopus_simulator.Message.{Message}
use octopus_simulator.Directory.{AckCounters, counter_at, store_counter, set_ack, dec_ack}
use octopus_simulator.Directory.Private.{completes_count, completes_ack}

-- What is stored for a counter: no entry stands for 0.
abbrev pub stored : ℤ → Option ℤ
stored v = if is_zero v then none else some v

-- The line has the counter `v`, in one entry at most.
abbrev pub Counts : AckCounters → ℕ → ℤ → Type 0
Counts acks key v = (find acks key ≡ stored v) × (find (drop_key acks key) key ≡ none)

pub store_counter-Counts :
    (acks : AckCounters) (key : ℕ) (v : ℤ)
    → find (drop_key acks key) key ≡ none
    → Counts (store_counter acks key v) key v
unfolding store_counter
store_counter-Counts acks key v h = elim (Bool-cases (is_zero v)) [
  | inl z ↦ rw z (h, ap (λ m. find m key) (drop_key-absent (drop_key acks key) key h) ∙ h)
  | inr z ↦ rw z (find-put acks key v, drop_key-put acks key v ∙ h)
]

pub stored-or_zero : (v : ℤ) → (elim (stored v) as (λ _. ℤ) [ none ↦ pos 0 | some n ↦ n ]) ≡ v
stored-or_zero (pos zero) = refl
stored-or_zero (pos (suc n)) = refl
stored-or_zero (negsuc n) = refl

pub counter_at-Counts :
    (acks : AckCounters) (key : ℕ) (v : ℤ) → find acks key ≡ stored v → counter_at acks key ≡ v
counter_at-Counts acks key v h =
    ap (λ (o : Option ℤ). elim o [ none ↦ pos 0 | some n ↦ n ]) h ∙ stored-or_zero v

pub completes_ack-stored : (v : ℤ) → completes_ack (stored v) ≡ is_zero (minus_one v)
unfolding completes_ack
completes_ack-stored (pos zero) = refl
completes_ack-stored (pos (suc n)) = refl
completes_ack-stored (negsuc n) = ground arith

-- The counter of a last acknowledgement is 1, so the data's test in Hit fails.
pub not_data : (v : ℤ) → completes_ack (stored v) ≡ true → completes_count (stored v) 6 ≡ false
unfolding completes_ack completes_count
not_data (pos zero) h = ground arith
not_data (pos (suc n)) h = ground arith
not_data (negsuc n) h = ground arith

pub dec_ack-Counts :
    (acks : AckCounters) (key : ℕ) (v : ℤ)
    → Counts acks key v
    → Counts (dec_ack acks key) key (minus_one v)
unfolding dec_ack
dec_ack-Counts acks key v (f, o) =
    rw (counter_at-Counts acks key v f) (store_counter-Counts acks key (minus_one v) o)

pub set_ack-Counts :
    (acks : AckCounters) (key : ℕ) (v : ℤ) (m : Message)
    → Counts acks key v
    → Counts (set_ack acks key m) key (add_ℕ v m.complementary_value)
unfolding set_ack
set_ack-Counts acks key v m (f, o) =
    rw (counter_at-Counts acks key v f)
      (store_counter-Counts acks key (add_ℕ v m.complementary_value) o)

pub minus_one-sub_ℕ : (x a : ℕ) → minus_one (sub_ℕ x a) ≡ sub_ℕ x (suc a)
minus_one-sub_ℕ x a = ground arith

pub add_ℕ-sub_ℕ : (a n : ℕ) → add_ℕ (sub_ℕ 0 a) n ≡ sub_ℕ n a
add_ℕ-sub_ℕ a n = ground arith

pub sub_ℕ-self : (x a : ℕ) → x ≡ a → sub_ℕ x a ≡ pos 0
sub_ℕ-self x a e = ground arith

pub is_zero-sub_ℕ : (x a : ℕ) → x ≢ a → is_zero (sub_ℕ x a) ≡ false
is_zero-sub_ℕ x a e = ground arith
