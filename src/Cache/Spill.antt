-- ===== src/Cache/Spill.antt =====
-- The write-back registers of a cache: how full they get, and what an eviction leaves in them.
use octopus_simulator.Common.{
  ℕ, zero, suc, ◌≤◌, ◌<◌, ◌≡◌, ◌⊎◌, refl, ap, sym, subst, inl, inr, Bool, true, false, ◌&&◌, not,
  Option, none, some, List, [], ◌∷◌, ◌++◌, length, set, ltb→lt, eq→==, ◌==◌, is_some, arith,
  Bool-cases, Option-cases,
}
use octopus_simulator.Cache.Line.{Line, new_line, copy, copy_bits, copy_data, copy_over}
use octopus_simulator.Cache.Array.{line_at, put_line, calculate_address, get_line, find_empty_way}
use octopus_simulator.Cache.Registers.{
  Handler, Registers, lookup, insert, assign, Location, in_array, in_mshr, in_pwb, nowhere, locate,
  line_location, move_line_to_wb, set_array, is_ready_for, block_of, write_cache_line,
}
use octopus_simulator.Cache.Accesses.{
  found_line, put_found, note_found, make_room, evict_unless, install, update_at, update_line_data,
  has_space, pwb_has_space, fill_would_overflow_pwb,
}

lookup-insert_self :
    (rs : Registers) (k : ℕ) (line : Line) → lookup (insert rs k line) k ≡ some line
lookup-insert_self [] k line = rw (eq→== k k refl) refl
lookup-insert_self ((j, old) ∷ rs) k line = elim (Bool-cases (j == k)) [
  | inl e ↦ rw (e, eq→== k k refl) refl
  | inr e ↦ rw (e, e) (lookup-insert_self rs k line)
]

length-insert : (rs : Registers) (k : ℕ) (line : Line) → length (insert rs k line) ≤ suc (length rs)
length-insert [] k line = omega arith
length-insert ((j, old) ∷ rs) k line = elim (Bool-cases (j == k)) [
  | inl e ↦ rw e (omega arith)
  | inr e ↦ rw e (omega (arith, length-insert rs k line))
]

-- A line that is in the registers already keeps its place.
length-insert_known :
    (rs : Registers) (k : ℕ) (line : Line)
    → is_some (lookup rs k) ≡ true
    → length (insert rs k line) ≡ length rs
length-insert_known [] k line h = cc
length-insert_known ((j, old) ∷ rs) k line h = elim (Bool-cases (j == k)) [
  | inl e ↦ rw e refl
  | inr e ↦ rw e (ap suc (length-insert_known rs k line (known e)))
]
  where
    known : (j == k) ≡ false → is_some (lookup rs k) ≡ true
    known e = rw e at h

copy_over-all : (source : List ℕ) → copy_over [] (length source) source ≡ source
copy_over-all [] = refl
copy_over-all (s ∷ source) = ap (λ xs. s ∷ xs) (copy_over-all source)

copy-bytes :
    (line : Line) (bytes : List ℕ)
    → line.bytes ≡ some bytes
    → line.block_size ≡ length bytes
    → (copy new_line line).bytes ≡ some bytes
unfolding copy copy_bits copy_data new_line
copy-bytes line bytes e f = rw (e, f) (ap some (copy_over-all bytes))

line_at-set_invalid :
    (ls : List Line) (i : ℕ) (line : Line)
    → line.valid ≡ false
    → (line_at (set ls i line) i).valid ≡ false
unfolding new_line
line_at-set_invalid [] i line e = refl
line_at-set_invalid (l ∷ ls) zero line e = e
line_at-set_invalid (l ∷ ls) (suc i) line e = line_at-set_invalid ls i line e

copy-bits_same :
    (old line : Line)
    → ((copy old line).valid ≡ line.valid)
      × ((copy old line).state ≡ line.state)
      × ((copy old line).owner_id ≡ line.owner_id)
unfolding copy copy_bits copy_data
copy-bits_same old line = elim (Option-cases line.bytes) [
  | inl e ↦ rw e (refl, refl, refl)
  | inr (bytes, e) ↦ rw e (refl, refl, refl)
]

-- `l` has the flags, the owner and the bytes of `line`.
abbrev pub SavedAs : Line → List ℕ → Line → Type 0
SavedAs line bytes l =
    (l.valid ≡ line.valid)
    × (l.state ≡ line.state)
    × (l.owner_id ≡ line.owner_id)
    × (l.bytes ≡ some bytes)

-- If the victim's buffer is as long as its block size and its block has no write-back register yet, then
-- an eviction puts the victim's flags, owner and bytes into the register of its block's address, queues
-- that address last, and leaves an invalid line in the array.
move_line_to_wb-saves :
    (h : Handler) (s way tag : ℕ) (bytes : List ℕ)
    → (get_line h.array s way).tag ≡ some tag
    → (get_line h.array s way).bytes ≡ some bytes
    → (get_line h.array s way).block_size ≡ length bytes
    → lookup h.pwb (calculate_address h.array tag s) ≡ none
    → (l : Line) × (lookup (move_line_to_wb h s way).pwb (calculate_address h.array tag s) ≡ some l)
      × SavedAs (get_line h.array s way) bytes l
      × ((move_line_to_wb h s way).pending_issue
          ≡ h.pending_issue ++ calculate_address h.array tag s ∷ [])
      × ((get_line (move_line_to_wb h s way).array s way).valid ≡ false)
unfolding move_line_to_wb assign put_line
move_line_to_wb-saves h s way tag bytes t b f n = (
  copy new_line line,
  rw (t, n) (lookup-insert_self h.pwb _ _),
  (
    (copy-bits_same new_line line).0,
    (copy-bits_same new_line line).1,
    (copy-bits_same new_line line).2,
    copy-bytes line bytes b f,
  ),
  rw t refl,
  line_at-set_invalid h.array.lines _ _ refl,
)
  where
    line : Line
    line = get_line h.array s way

write_cache_line-pwb : (h : Handler) (a : ℕ) (l : Line) → (write_cache_line h a l).1.pwb ≡ h.pwb
unfolding write_cache_line set_array
write_cache_line-pwb h a l = elim (Bool-cases (is_ready_for h a)) [
  | inl e ↦ rw e refl
  | inr e ↦ rw e refl
]

install-pwb : (h : Handler) (a : ℕ) (l : Line) → (install h a l).1.pwb ≡ h.pwb
unfolding install
install-pwb h a l = elim (Bool-cases (write_cache_line h a l).0) [
  | inl e ↦ rw e (write_cache_line-pwb h a l)
  | inr e ↦ rw e (write_cache_line-pwb h a l)
]

-- An eviction takes at most one register more.
evict_unless-pwb :
    (rand : ℕ) (h : Handler) (a : ℕ) (way : Option ℕ)
    → length (evict_unless rand h a way).pwb ≤ suc (length h.pwb)
unfolding evict_unless move_line_to_wb assign
evict_unless-pwb rand h a none = length-insert h.pwb _ _
evict_unless-pwb rand h a (some way) = omega arith

-- Without an eviction the registers stay as they are.
evict_unless-pwb_free :
    (rand : ℕ) (h : Handler) (a : ℕ) (way : Option ℕ)
    → is_some way ≡ true
    → (evict_unless rand h a way).pwb ≡ h.pwb
unfolding evict_unless
evict_unless-pwb_free rand h a none f = cc
evict_unless-pwb_free rand h a (some way) f = refl

has_space-lt :
    (limit : Option ℕ) (size n : ℕ) → limit ≡ some size → has_space limit n ≡ true → n < size
unfolding has_space
has_space-lt none size n e f = cc
has_space-lt (some m) size n e f = omega (arith, ltb→lt n m f, same)
  where
    same : m ≡ size
    same = cc

locate-in_mshr :
    (o : Option ℕ) (m p : Bool) → locate o m p ≡ in_mshr → (is_some o ≡ false) × (m ≡ true)
unfolding locate
locate-in_mshr (some w) m p e = cc
locate-in_mshr none true p e = (refl, refl)
locate-in_mshr none false true e = cc
locate-in_mshr none false false e = cc

locate-in_pwb : (o : Option ℕ) (m p : Bool) → locate o m p ≡ in_pwb → p ≡ true
unfolding locate
locate-in_pwb (some w) m p e = cc
locate-in_pwb none true p e = cc
locate-in_pwb none false true e = refl
locate-in_pwb none false false e = cc

-- A fill that would not overflow has a free way or a free register.
room_cases :
    (space m found empty : Bool)
    → (not space && m && not found && not empty) ≡ false
    → m ≡ true
    → found ≡ false
    → (space ≡ true) ⊎ (empty ≡ true)
room_cases true m found empty e f g = inl refl
room_cases false m found true e f g = inr refl
room_cases false m found false e f g = absurd (clash (sym (rw (f, g) at e)))
  where
    clash : false ≡ true → ⊥
    clash t = cc

module _ (rand : ℕ) (h : Handler) (address size : ℕ) (source : List ℕ) where
  filled-bounded :
      (line : Line)
      → h.pwb_size ≡ some size
      → length h.pwb ≤ size
      → (pwb_has_space h ≡ true) ⊎ (is_some (find_empty_way h.array address) ≡ true)
      → length (make_room rand (put_found h address in_mshr line) address).pwb ≤ size
  unfolding put_found make_room pwb_has_space
  filled-bounded line e l (inl f) = omega (
    arith,
    evict_unless-pwb rand (put_found h address in_mshr line) address
        (find_empty_way h.array address),
    has_space-lt h.pwb_size size (length h.pwb) e f,
  )
  filled-bounded line e l (inr f) =
      subst (λ rs. length rs ≤ size)
        (sym (
          evict_unless-pwb_free rand (put_found h address in_mshr line) address
            (find_empty_way h.array address) f))
        l

  update_at-bounded :
      (place : Location)
      → line_location h address ≡ place
      → h.pwb_size ≡ some size
      → length h.pwb ≤ size
      → fill_would_overflow_pwb h address ≡ false
      → length (update_at rand h address source place).1.pwb ≤ size
  unfolding update_at put_found note_found set_array fill_would_overflow_pwb line_location
  update_at-bounded in_array p e l f = elim (Bool-cases (is_ready_for h address)) [
    | inl r ↦ rw r l
    | inr r ↦ rw r l
  ]
  update_at-bounded nowhere p e l f = l
  update_at-bounded in_pwb p e l f =
      omega (arith, l, length-insert_known h.pwb (block_of h address) _ (locate-in_pwb _ _ _ p))
  update_at-bounded in_mshr p e l f =
      subst (λ rs. length rs ≤ size)
        (sym (
          install-pwb (make_room rand (put_found h address in_mshr filled) address) address filled))
        (filled-bounded filled e l
          (room_cases _ _ _ _ f (locate-in_mshr _ _ _ p).1 (locate-in_mshr _ _ _ p).0))
    where
      filled : Line
      filled = copy_data (found_line h address in_mshr) source

-- If the write-back registers are within their bound and `fillWouldOverflowPwb` answers no, then they
-- are within their bound after the data of a block arrive, wherever the block is held.
pub update_line_data-bounded :
    (rand : ℕ) (h : Handler) (address size : ℕ) (source : List ℕ)
    → h.pwb_size ≡ some size
    → length h.pwb ≤ size
    → fill_would_overflow_pwb h address ≡ false
    → length (update_line_data rand h address source).1.pwb ≤ size
unfolding update_line_data
update_line_data-bounded rand h address size source =
    update_at-bounded rand h address size source (line_location h address) refl
