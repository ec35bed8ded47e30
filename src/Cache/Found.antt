-- ===== src/Cache/Found.antt =====
-- Finding a line in the array: what a write changes about it, for its own block and for the others.
use octopus_simulator.Common.{
  ℕ, zero, suc, ◌+◌, ◌*◌, ◌/◌, ◌%◌, ◌<◌, ◌≡◌, ◌≢◌, refl, ap, sym, ◌∙◌, subst, ◌⊎◌, inl, inr, Bool,
  true, false, ◌&&◌, not, Option, none, some, List, [], ◌∷◌, ◌++◌, length, set, eq→==, ==→eq, ◌==◌,
  arith, Bool-cases, Option-cases,
}
use octopus_simulator.Replacement.{has_bit}
use octopus_simulator.Cache.Line.{Line, copy, copy_bits, copy_data, copy_over, buffer_of}
use octopus_simulator.Cache.Array.{
  Array, line_at, put_line, calculate_set, calculate_tag, get_line, has_tag, holds, find_line,
  is_free, find_empty_way, allowed_ways,
}
use octopus_simulator.Cache.Geometry.{tag_of_join, set_of_join}
use octopus_simulator.Cache.Registers.{fill_way, fill_if, write_cache_line_bypass_latency}
use octopus_simulator.Cache.Loops.{
  IsFirst, first_way-IsFirst, first_way-congruent, first_way-none, first_way-only,
}

line_at-set_self :
    (ls : List Line) (i : ℕ) (line : Line) → i < length ls → line_at (set ls i line) i ≡ line
line_at-set_self [] i line h = elim h [ ]
line_at-set_self (l ∷ ls) zero line h = refl
line_at-set_self (l ∷ ls) (suc i) line h = line_at-set_self ls i line (omega arith)

line_at-set_ne :
    (ls : List Line) (i j : ℕ) (line : Line) → i ≢ j → line_at (set ls i line) j ≡ line_at ls j
line_at-set_ne [] i j line h = refl
line_at-set_ne (l ∷ ls) zero zero line h = absurd (h refl)
line_at-set_ne (l ∷ ls) zero (suc j) line h = refl
line_at-set_ne (l ∷ ls) (suc i) zero line h = refl
line_at-set_ne (l ∷ ls) (suc i) (suc j) line h = line_at-set_ne ls i j line (λ e. h (ap suc e))

-- The places of two ways differ when the sets or the ways do.
place_lem : (s t n v w : ℕ) → v < n → w < n → s * n + v ≡ t * n + w → (s ≡ t) × (v ≡ w)
place_lem s t n v w g h e = (
  sym (tag_of_join s v n g) ∙ ap (λ x. x / n) e ∙ tag_of_join t w n h,
  sym (set_of_join s v n g) ∙ ap (λ x. x % n) e ∙ set_of_join t w n h,
)

clash : {b : Bool} → b ≡ false → b ≡ true → ⊥
clash e f = cc

abbrev has_line : ℕ → Line → Bool
has_line t line = line.valid && has_tag line.tag t

-- Array `a` with line `new`, a valid line of the block of `address`, put into an invalid way `w`.
module _ (a : Array) (address w : ℕ) (new : Line)
    (free : (get_line a (calculate_set a address) w).valid ≡ false) (inside : w < a.ways_count)
    (room : calculate_set a address * a.ways_count + w < length a.lines)
    (is_valid : new.valid ≡ true) (is_tagged : new.tag ≡ some (calculate_tag a address)) where
  after : Array
  after = put_line a (calculate_set a address) w new

  after_self : get_line after (calculate_set a address) w ≡ new
  unfolding after put_line
  after_self = line_at-set_self a.lines _ new room

  after_other :
      (s way : ℕ)
      → way < a.ways_count
      → (s ≢ calculate_set a address) ⊎ (way ≢ w)
      → get_line after s way ≡ get_line a s way
  unfolding after put_line
  after_other s way h (inl d) =
      line_at-set_ne a.lines _ _ new (λ e. d (sym (place_lem _ s a.ways_count w way inside h e).0))
  after_other s way h (inr d) =
      line_at-set_ne a.lines _ _ new (λ e. d (sym (place_lem _ s a.ways_count w way inside h e).1))

  tag_lem : has_tag new.tag (calculate_tag a address) ≡ true
  tag_lem = rw is_tagged (eq→== _ _ refl)

  find_line-after : find_line a address ≡ none → find_line after address ≡ some w
  unfolding after put_line find_line
  find_line-after e =
      first_way-only (holds after address) 0 a.ways_count w (omega arith) (omega (arith, inside))
        (ap (has_line (calculate_tag a address)) after_self ∙ rw is_valid tag_lem)
        (λ j l d.
          ap (has_line (calculate_tag a address))
            (after_other (calculate_set a address) j (omega arith) (inr d))
          ∙ first_way-none (holds a address) 0 a.ways_count j e (omega arith) l)

  -- At the way written, neither array holds a block of the same set with another tag.
  holds-after :
      (other : ℕ)
      → calculate_set a other ≡ calculate_set a address
      → calculate_tag a other ≢ calculate_tag a address
      → holds after other w ≡ holds a other w
  unfolding after put_line
  holds-after other q d =
      ap (has_line (calculate_tag a other))
        (subst (λ x. get_line after x w ≡ new) (sym q) after_self)
      ∙ rw (is_valid, is_tagged) different
      ∙ sym (
          ap (λ b. b && has_tag (get_line a (calculate_set a other) w).tag (calculate_tag a other))
            (subst (λ x. (get_line a x w).valid ≡ false) (sym q) free))
    where
      different : (calculate_tag a address == calculate_tag a other) ≡ false
      different = elim (Bool-cases (calculate_tag a address == calculate_tag a other)) [
        | inl e ↦ absurd (d (sym (==→eq _ _ e)))
        | inr e ↦ e
      ]

  find_line-after_other :
      (other : ℕ)
      → (calculate_set a other ≡ calculate_set a address
          → calculate_tag a other ≢ calculate_tag a address)
      → find_line after other ≡ find_line a other
  unfolding after put_line find_line
  find_line-after_other other d =
      first_way-congruent (holds after other) (holds a other) 0 a.ways_count
        (λ v l m. same v (omega (arith, m)))
    where
      same : (v : ℕ) → v < a.ways_count → holds after other v ≡ holds a other v
      same v m = elim (Bool-cases (calculate_set a other == calculate_set a address)) [
        | inr f ↦
            ap (has_line (calculate_tag a other))
              (after_other (calculate_set a other) v m (inl (λ e. clash f (eq→== _ _ e))))
        | inl f ↦ elim (Bool-cases (v == w)) [
          | inr g ↦
              ap (has_line (calculate_tag a other))
                (after_other (calculate_set a other) v m (inr (λ e. clash g (eq→== _ _ e))))
          | inl g ↦
              subst (λ x. holds after other x ≡ holds a other x) (sym (==→eq v w g))
                (holds-after other (==→eq _ _ f) (d (==→eq _ _ f)))
        ]
      ]

is_free-valid : (allowed v : Bool) → (allowed && not v) ≡ true → v ≡ false
is_free-valid true true e = sym e
is_free-valid true false e = refl
is_free-valid false v e = cc

is_free-allowed : (allowed v : Bool) → (allowed && not v) ≡ true → allowed ≡ true
is_free-allowed true v e = refl
is_free-allowed false v e = cc

copy-valid : (old line : Line) → (copy old line).valid ≡ line.valid
unfolding copy copy_bits copy_data
copy-valid old line = elim (Option-cases line.bytes) [
  | inl e ↦ rw e refl
  | inr (bytes, e) ↦ rw e refl
]

-- What a buffer holds past the length of the bytes that are written to its start.
abbrev pub beyond : List ℕ → List ℕ → List ℕ
beyond buffer [] = buffer
beyond [] (s ∷ source) = []
beyond (b ∷ buffer) (s ∷ source) = beyond buffer source

-- The bytes of a way that held `old`, after a line with the bytes `new` is written to it.
abbrev pub bytes_after : Option (List ℕ) → Option (List ℕ) → Option (List ℕ)
bytes_after old none = old
bytes_after old (some source) = some (source ++ beyond (buffer_of old) source)

-- A line's data, if it has any, are as long as its block.
abbrev pub IsBlock : ℕ → Option (List ℕ) → Type 0
IsBlock size none = Unit
IsBlock size (some source) = length source ≡ size

-- The line as it is stored in a way that held `old`: all that it has, its data in front of the way's buffer,
-- and the tag of the block.
abbrev pub stored_line : Line → Line → ℕ → Line
stored_line old line t = record line { tag = some t; bytes = bytes_after old.bytes line.bytes }

copy_over_lem :
    (buffer source : List ℕ) (n : ℕ)
    → length source ≡ n
    → copy_over buffer n source ≡ source ++ beyond buffer source
copy_over_lem buffer [] zero h = refl
copy_over_lem buffer [] (suc n) h = absurd (omega arith)
copy_over_lem buffer (s ∷ source) zero h = absurd (omega arith)
copy_over_lem [] (s ∷ source) (suc n) h =
    ap (λ r. s ∷ r)
      (copy_over_lem [] source n (omega arith) ∙ ap (λ r. source ++ r) (none_beyond source))
  where
    none_beyond : (xs : List ℕ) → beyond [] xs ≡ []
    none_beyond [] = refl
    none_beyond (x ∷ xs) = refl
copy_over_lem (b ∷ buffer) (s ∷ source) (suc n) h =
    ap (λ r. s ∷ r) (copy_over_lem buffer source n (omega arith))

copy-stored_line :
    (old line : Line) (t : ℕ)
    → IsBlock line.block_size line.bytes
    → record (copy old line) { tag = some t } ≡ stored_line old line t
unfolding copy copy_bits copy_data
copy-stored_line old line t h = elim (Option-cases line.bytes) [
  | inl e ↦ rw e refl
  | inr (source, e) ↦ rw e (
      ap (λ b. record (copy_bits old line) { tag = some t; bytes = some b })
        (copy_over_lem (buffer_of old.bytes) source line.block_size
          (subst (IsBlock line.block_size) e h)))
]

-- The array after the write, from the array before it.
abbrev pub Written : Array → ℕ → Line → ℕ → Array → Type 0
Written a address line w b =
    (find_line b address ≡ some w)
    × (has_bit (allowed_ways a) w ≡ true)
    × (get_line b (calculate_set a address) w
        ≡ stored_line (get_line a (calculate_set a address) w) line (calculate_tag a address))
    × ((other : ℕ)
        → (calculate_set a other ≡ calculate_set a address
            → calculate_tag a other ≢ calculate_tag a address)
        → find_line b other ≡ find_line a other)

abbrev pub Result : Array → ℕ → Line → ℕ → Bool × Array → Type 0
Result a address line w r = (r.0 ≡ true) × Written a address line w r.1

-- A fill is a line put into an empty way, but for the replacement policy.
fill_way-Written :
    (a : Array) (address w : ℕ) (line : Line) (soft : Bool)
    → line.valid ≡ true
    → IsBlock line.block_size line.bytes
    → find_line a address ≡ none
    → find_empty_way a address ≡ some w
    → calculate_set a address * a.ways_count + w < length a.lines
    → Written a address line w (fill_way a address line soft w)
unfolding find_empty_way fill_way after copy_bits find_line
fill_way-Written a address w line soft v b e f room =
    at (first_way-IsFirst (is_free a (calculate_set a address)) 0 a.ways_count w f) soft
  where
    new : Line
    new = record (copy (get_line a (calculate_set a address) w) line) {
      tag = some (calculate_tag a address);
    }

    valid_lem : new.valid ≡ true
    valid_lem = (copy-valid (get_line a (calculate_set a address) w) line) ∙ v

    self :
        (get_line a (calculate_set a address) w).valid ≡ false
        → w < a.ways_count
        → get_line (put_line a (calculate_set a address) w new) (calculate_set a address) w
          ≡ stored_line (get_line a (calculate_set a address) w) line (calculate_tag a address)
    self free m =
        after_self a address w new free m room valid_lem refl
        ∙ copy-stored_line (get_line a (calculate_set a address) w) line (calculate_tag a address) b

    at :
        IsFirst (is_free a (calculate_set a address)) 0 a.ways_count w
        → (soft : Bool) → Written a address line w (fill_way a address line soft w)
    at (l, m, o, g) true = (
      find_line-after a address w new (is_free-valid _ _ o) (omega (arith, m)) room valid_lem refl
          e,
      is_free-allowed _ _ o,
      self (is_free-valid _ _ o) (omega (arith, m)),
      find_line-after_other a address w new (is_free-valid _ _ o) (omega (arith, m)) room valid_lem
          refl,
    )
    at (l, m, o, g) false = (
      find_line-after a address w new (is_free-valid _ _ o) (omega (arith, m)) room valid_lem refl
          e,
      is_free-allowed _ _ o,
      self (is_free-valid _ _ o) (omega (arith, m)),
      find_line-after_other a address w new (is_free-valid _ _ o) (omega (arith, m)) room valid_lem
          refl,
    )

-- When a valid line, whose data, if it has any, are as long as its block, is written for a block that the
-- array does not hold and some way is empty, the write succeeds, and `findline` finds the block in the
-- first empty way, which is one that the requester may fill. The way has all that the line has, under
-- the block's tag, with the line's data at the start of its buffer; a line without data leaves the
-- buffer as it is. Every other block is found where it was.
pub write_cache_line_bypass_latency-Written :
    (a : Array) (address w : ℕ) (line : Line) (soft : Bool)
    → line.valid ≡ true
    → IsBlock line.block_size line.bytes
    → find_line a address ≡ none
    → find_empty_way a address ≡ some w
    → calculate_set a address * a.ways_count + w < length a.lines
    → Result a address line w (write_cache_line_bypass_latency a address line soft)
unfolding write_cache_line_bypass_latency fill_if
write_cache_line_bypass_latency-Written a address w line soft v b e f room =
    subst (λ o. Result a address line w (fill_if a address line soft o)) (sym f)
      (refl, fill_way-Written a address w line soft v b e f room)
