-- ===== src/Cache/Geometry.antt =====
-- Addresses of the cache: tag, set and offset split a 64-bit address, and join to its block's address.
use octopus_simulator.Common.{
  ℕ, zero, suc, ◌+◌, ◌-◌, ◌*◌, ◌/◌, ◌%◌, ◌^◌, ◌<◌, ◌≡◌, ap, sym, subst, ◌∙◌, arith,
}
use octopus_simulator.Cache.Array.{
  Array, calculate_tag, calculate_set, calculate_address, mask_offset,
}
use native.Mathlib.Nat.{
  mod-add-div', mul-add-mod_self_right, div-eq_of_lt-le, mod-eq_of_lt, mul-div_cancel, two-pow-succ,
  pow-zero, one-mul, zero-add, mod-lt,
}

join_lem : (q s : ℕ) → q / s * s + q % s ≡ q
join_lem q s = omega (arith, mod-add-div' q s)

pub tag_of_join : (t s n : ℕ) → s < n → (t * n + s) / n ≡ t
tag_of_join t s n h = div-eq_of_lt-le n (omega arith) (omega arith)

pub set_of_join : (t s n : ℕ) → s < n → (t * n + s) % n ≡ s
set_of_join t s n h = mul-add-mod_self_right t n s ∙ mod-eq_of_lt h

block_lem : (address n : ℕ) → address / n * n ≡ address - address % n
block_lem address n = omega (arith, mod-add-div' address n)

two_pow_pos : (b : ℕ) → 0 < 2 ^ b
two_pow_pos zero = omega arith
two_pow_pos (suc b) = omega (arith, two_pow_pos b)

unshift_lem : (q b : ℕ) → q * 2 ^ b / 2 ^ b ≡ q
unshift_lem q b = mul-div_cancel q (two_pow_pos b)

two_pow-add : (m n : ℕ) → 2 ^ (m + n) ≡ 2 ^ m * 2 ^ n
two_pow-add zero n = simp (zero-add, pow-zero, one-mul)
two_pow-add (suc m) n =
    ap (λ (k : ℕ). 2 ^ k) (shift_suc m n)
    ∙ omega (arith, two_pow-add m n, ap (λ (k : ℕ). k * 2 ^ n) (two-pow-succ m))
  where
    shift_suc : (m n : ℕ) → suc m + n ≡ suc (m + n)
    shift_suc m n = omega arith

-- A multiple of `k` reduced by one of `k`.
scaled_mod : (x k n : ℕ) → 0 < k → 0 < n → (x * k) % (n * k) ≡ x % n * k
scaled_mod x k n h l =
    ap (λ y. y % (n * k)) split
    ∙ mul-add-mod_self_right (x / n) (n * k) (x % n * k)
    ∙ mod-eq_of_lt (grind (arith, mod-lt))
  where
    split : x * k ≡ x / n * (n * k) + x % n * k
    split = omega (arith, ap (λ (y : ℕ). y * k) (mod-add-div' x n))

-- A number of two digits, the lower one below `n`, reduced by `k * n`.
joined_mod : (t s n k : ℕ) → s < n → 0 < k → (t * n + s) % (k * n) ≡ t % k * n + s
joined_mod t s n k h l =
    ap (λ y. y % (k * n)) split
    ∙ mul-add-mod_self_right (t / k) (k * n) (t % k * n + s)
    ∙ mod-eq_of_lt (grind (arith, mod-lt))
  where
    split : t * n + s ≡ t / k * (k * n) + (t % k * n + s)
    split = omega (arith, ap (λ (y : ℕ). y * n) (mod-add-div' t k))

module _ (a : Array) (tag s tag_bits : ℕ) (word : tag_bits + a.set_bits + a.block_bits ≡ 64)
    (inside : s < 2 ^ a.set_bits) where
  calculate_address_lem :
      calculate_address a tag s ≡ (tag % 2 ^ tag_bits * 2 ^ a.set_bits + s) * 2 ^ a.block_bits
  unfolding calculate_address
  calculate_address_lem =
      ap (λ k. (tag * 2 ^ a.set_bits + s) * 2 ^ a.block_bits % k) wide
      ∙ scaled_mod (tag * 2 ^ a.set_bits + s) (2 ^ a.block_bits) (2 ^ tag_bits * 2 ^ a.set_bits)
          (two_pow_pos a.block_bits)
          (subst (λ k. 0 < k) (two_pow-add tag_bits a.set_bits)
            (two_pow_pos (tag_bits + a.set_bits)))
      ∙ ap (λ q. q * 2 ^ a.block_bits)
          (joined_mod tag s (2 ^ a.set_bits) (2 ^ tag_bits) inside (two_pow_pos tag_bits))
    where
      wide : 2 ^ 64 ≡ 2 ^ tag_bits * 2 ^ a.set_bits * 2 ^ a.block_bits
      wide =
          ap (λ (k : ℕ). 2 ^ k) (sym word)
          ∙ two_pow-add (tag_bits + a.set_bits) a.block_bits
          ∙ ap (λ k. k * 2 ^ a.block_bits) (two_pow-add tag_bits a.set_bits)

  tag_lem : calculate_tag a (calculate_address a tag s) ≡ tag % 2 ^ tag_bits
  tag_lem =
      ap (calculate_tag a) calculate_address_lem
      ∙ ap (λ q. q / 2 ^ a.set_bits)
          (unshift_lem (tag % 2 ^ tag_bits * 2 ^ a.set_bits + s) a.block_bits)
      ∙ tag_of_join (tag % 2 ^ tag_bits) s (2 ^ a.set_bits) inside

  set_lem : calculate_set a (calculate_address a tag s) ≡ s
  set_lem =
      ap (calculate_set a) calculate_address_lem
      ∙ ap (λ q. q % 2 ^ a.set_bits)
          (unshift_lem (tag % 2 ^ tag_bits * 2 ^ a.set_bits + s) a.block_bits)
      ∙ set_of_join (tag % 2 ^ tag_bits) s (2 ^ a.set_bits) inside

join-address :
    (a : Array) (address : ℕ)
    → address < 2 ^ 64
    → calculate_address a (calculate_tag a address) (calculate_set a address)
      ≡ mask_offset a address
unfolding calculate_address
join-address a address h =
    ap (λ q. q * 2 ^ a.block_bits % 2 ^ 64) (join_lem (address / 2 ^ a.block_bits) (2 ^ a.set_bits))
    ∙ ap (λ q. q % 2 ^ 64) (block_lem address (2 ^ a.block_bits))
    ∙ mod-eq_of_lt (below (address % 2 ^ a.block_bits))
  where
    below : (k : ℕ) → address - k < 2 ^ 64
    below k = omega arith

-- The tag and the set of a 64-bit address join to the address of its block. A tag and one of the cache's sets
-- join to an address with that set, whose tag is the lowest bits of the tag: as many as 64 bits have
-- beside the set and the offset.
pub calculate_address-round_trip :
    (a : Array) (address tag s tag_bits : ℕ)
    → address < 2 ^ 64
    → tag_bits + a.set_bits + a.block_bits ≡ 64
    → s < 2 ^ a.set_bits
    → (calculate_address a (calculate_tag a address) (calculate_set a address)
        ≡ mask_offset a address)
      × (calculate_tag a (calculate_address a tag s) ≡ tag % 2 ^ tag_bits)
      × (calculate_set a (calculate_address a tag s) ≡ s)
calculate_address-round_trip a address tag s tag_bits h word inside = (
  join-address a address h,
  tag_lem a tag s tag_bits word inside,
  set_lem a tag s tag_bits word inside,
)
