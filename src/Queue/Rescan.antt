-- ===== src/Queue/Rescan.antt =====
-- FRFCFS_Buffer: the skipped scan of a queue whose readiness depends on its own contents only.
use octopus_simulator.Common.{
  ℕ, ◌≡◌, refl, ap, sym, ◌∙◌, inl, inr, Bool, true, false, ◌&&◌, not, Option, none, some, List, [],
  ◌∷◌, ◌++◌, arith, if◌then◌else◌, Bool-cases, subst,
}
use octopus_simulator.Message.{Message}
use octopus_simulator.Queue.{
  State, ready, non_ready, needs_action, waiting, Element, Buffer, is_ready, has_older, is_gated,
  put_back, verdict, settle, scan, full_scan, get_first_ready, push_back, push_front,
  push_front_ordered, mark_dirty, new_buffer,
}
use octopus_simulator.Queue.Intake.{push_back-admits}

abbrev pub Check : Type 0
Check = Message → State → State

-- The controller's side of the queue: the callback and the hold, which may change with its caches.
pub record Env : Type 0 where
  pub check : Check
  pub hold : Message → Bool

-- The callback looks at the message alone, as the coherence protocols' do.
abbrev pub IsStateless : Env → Type 0
IsStateless env = (m : Message) (s t : State) → env.check m s ≡ env.check m t

-- The same messages in the same order, and the same ones marked ready.
abbrev Alike : List Element → List Element → Type 0
Alike [] [] = Unit
Alike [] (y ∷ ys) = ⊥
Alike (x ∷ xs) [] = ⊥
Alike (x ∷ xs) (y ∷ ys) = (x.item ≡ y.item) × (is_ready x.state ≡ is_ready y.state) × Alike xs ys

Alike-refl : (xs : List Element) → Alike xs xs
Alike-refl [] = tt
Alike-refl (x ∷ xs) = (refl, refl, Alike-refl xs)

Alike-snoc :
    (xs ys : List Element) (x y : Element)
    → Alike xs ys
    → x.item ≡ y.item
    → is_ready x.state ≡ is_ready y.state
    → Alike (xs ++ x ∷ []) (ys ++ y ∷ [])
Alike-snoc [] [] x y a i r = (i, r, tt)
Alike-snoc [] (z ∷ ys) x y a i r = absurd a
Alike-snoc (z ∷ xs) [] x y a i r = absurd a
Alike-snoc (z ∷ xs) (w ∷ ys) x y a i r = (a.0, a.1, Alike-snoc xs ys x y a.2 i r)

has_older-Alike :
    (mask : ℕ) (m : Message) (xs ys : List Element)
    → Alike xs ys
    → has_older mask m xs ≡ has_older mask m ys
unfolding has_older
has_older-Alike mask m [] [] a = refl
has_older-Alike mask m [] (y ∷ ys) a = absurd a
has_older-Alike mask m (x ∷ xs) [] a = absurd a
has_older-Alike mask m (x ∷ xs) (y ∷ ys) a = rw (a.0, has_older-Alike mask m xs ys a.2)

is_gated-Alike :
    (mask : ℕ) (m n : Message) (xs ys : List Element)
    → m ≡ n
    → Alike xs ys
    → is_gated mask m xs ≡ is_gated mask n ys
unfolding is_gated
is_gated-Alike mask m n xs ys e a = rw (e, has_older-Alike mask n xs ys a)

verdict-Alike :
    (env : Env) (x y : Element)
    → IsStateless env
    → x.item ≡ y.item
    → is_ready x.state ≡ is_ready y.state
    → verdict env.check x ≡ verdict env.check y
verdict-Alike env x y f i r = rw (r, i, f y.item x.state y.state)

settle-found :
    (v : State) (x y : Element) (xs ys : List Element) (r s : Option Message × List Element)
    → x.item ≡ y.item
    → r.0 ≡ s.0
    → (settle v x xs r).0 ≡ (settle v y ys s).0
unfolding settle
settle-found ready x y xs ys r s i e = ap some i
settle-found needs_action x y xs ys r s i e = ap some i
settle-found non_ready x y xs ys r s i e = e
settle-found waiting x y xs ys r s i e = e

abbrev round :
    Bool
    → Bool
    → State
    → Element
    → List Element
    → Option Message × List Element
    → Option Message × List Element
round h g v e es rest =
    if h then put_back e rest else if g then put_back e rest else settle v e es rest

round-found :
    (h g : Bool) (v : State) (x y : Element) (xs ys : List Element)
    (r s : Option Message × List Element)
    → x.item ≡ y.item
    → r.0 ≡ s.0
    → (round h g v x xs r).0 ≡ (round h g v y ys s).0
round-found true g v x y xs ys r s i e = e
round-found false true v x y xs ys r s i e = e
round-found false false v x y xs ys r s i e = settle-found v x y xs ys r s i e

module _ (env : Env) (mask : ℕ) where
  -- What a scan finds depends on what is alike only.
  scan-Alike :
      (xs ys older older' : List Element)
      → IsStateless env
      → Alike xs ys
      → Alike older older'
      → (scan env.check env.hold mask older xs).0 ≡ (scan env.check env.hold mask older' ys).0
  unfolding scan
  scan-Alike [] [] older older' f a o = refl
  scan-Alike [] (y ∷ ys) older older' f a o = absurd a
  scan-Alike (x ∷ xs) [] older older' f a o = absurd a
  scan-Alike (x ∷ xs) (y ∷ ys) older older' f a o =
      round-found (env.hold x.item) (is_gated mask x.item older) (verdict env.check x) x y xs ys _ _
        a.0
        (scan-Alike xs ys (older ++ x ∷ []) (older' ++ y ∷ []) f a.2
          (Alike-snoc older older' x y o a.0 a.1))
      ∙ (λ i.
          (round (env.hold (a.0 i)) (is_gated-Alike mask x.item y.item older older' a.0 o i)
            (verdict-Alike env x y f a.0 a.1 i) y ys
            (scan env.check env.hold mask (older' ++ y ∷ []) ys)).0)

  settle-Alike :
      (v : State) (e : Element) (es : List Element) (r : Option Message × List Element)
      → verdict env.check e ≡ v
      → (settle v e es r).0 ≡ none
      → (r.0 ≡ none → Alike r.1 es)
      → Alike (settle v e es r).1 (e ∷ es)
  unfolding settle
  settle-Alike ready e es r v n a = cc
  settle-Alike needs_action e es r v n a = cc
  settle-Alike non_ready e es r v n a = (refl, ground arith, a n)
  settle-Alike waiting e es r v n a = (refl, ground arith, a n)

  round-Alike :
      (h g : Bool) (e : Element) (es : List Element) (r : Option Message × List Element)
      → (round h g (verdict env.check e) e es r).0 ≡ none
      → (r.0 ≡ none → Alike r.1 es)
      → Alike (round h g (verdict env.check e) e es r).1 (e ∷ es)
  round-Alike true g e es r n a = (refl, refl, a n)
  round-Alike false true e es r n a = (refl, refl, a n)
  round-Alike false false e es r n a = settle-Alike (verdict env.check e) e es r refl n a

  -- A scan that finds nothing changes nothing that a scan looks at.
  scan-none :
      (older es : List Element)
      → (scan env.check env.hold mask older es).0 ≡ none
      → Alike (scan env.check env.hold mask older es).1 es
  unfolding scan
  scan-none older [] n = tt
  scan-none older (e ∷ es) n =
      round-Alike (env.hold e.item) (is_gated mask e.item older) e es _ n
        (scan-none (older ++ e ∷ []) es)

abbrev next : Env → Buffer → Buffer × Option Message
next env b = get_first_ready env.check env.hold b

abbrev found : Env → Buffer → Option Message
found env b = (scan env.check env.hold b.line_mask [] b.elements).0

-- A queue that skips scans holds nothing that a scan would hand out while it is clean.
abbrev pub IsClean : Env → Buffer → Type 0
IsClean env b = b.readiness_state_only ≡ true → b.dirty ≡ false → found env b ≡ none

-- What happens to a queue. The controller's caches change only when a message is handed out, or with
-- a call of `markDirty`.
pub data Step (env : Env) (b : Buffer) : Env → Buffer → Type 0 where
  pushed_back :
      (item : Message) (state : State) (force : Bool)
      → Step env b env (push_back b item state force).0
  pushed_front : (item : Message) → Step env b env (push_front b item)
  pushed_front_ordered : (item : Message) → Step env b env (push_front_ordered b item)
  marked : (env' : Env) → Step env b env' (mark_dirty b)
  handed : (env' : Env) (m : Message) → (next env b).1 ≡ some m → Step env b env' (next env b).0
  fruitless : (next env b).1 ≡ none → Step env b env (next env b).0

pub data Reach (env : Env) (b : Buffer) : Env → Buffer → Type 0 where
  start : Reach env b env b
  followed :
      {env' env'' : Env} {b' b'' : Buffer}
      → Reach env b env' b'
      → IsStateless env'
      → Step env' b' env'' b''
      → Reach env b env'' b''

push_back-IsClean :
    (env : Env) (b : Buffer) (item : Message) (state : State) (force : Bool)
    → IsClean env b
    → IsClean env (push_back b item state force).0
push_back-IsClean env b item state force c = elim (push_back-admits b item state force) [
  | inl (e, _, _, _) ↦ subst (λ p. IsClean env p.0) (sym e) c
  | inr (_, e) ↦ subst (λ p. IsClean env p.0) (sym e) (λ r d. cc)
]

next-IsClean :
    (env env' : Env) (b : Buffer) (m : Message)
    → (next env b).1 ≡ some m
    → IsClean env' (next env b).0
unfolding get_first_ready
next-IsClean env env' b m e r d = absurd (ground arith)

fruitless-IsClean :
    (env : Env) (b : Buffer)
    → IsStateless env
    → IsClean env b
    → (next env b).1 ≡ none
    → IsClean env (next env b).0
unfolding get_first_ready
fruitless-IsClean env b f c e = elim (Bool-cases (b.readiness_state_only && not b.dirty)) [
  | inl s ↦ subst (λ p. IsClean env p.0) (sym (skipped s)) c
  | inr s ↦ subst (λ p. IsClean env p.0) (sym (scanned s)) (λ r d. again (found_none s))
]
  where
    skipped : (b.readiness_state_only && not b.dirty) ≡ true → next env b ≡ (b, none)
    skipped s = rw s

    scanned :
        (b.readiness_state_only && not b.dirty) ≡ false
        → next env b ≡ full_scan env.check env.hold b
    scanned s = rw s

    found_none : (b.readiness_state_only && not b.dirty) ≡ false → found env b ≡ none
    found_none s = sym (ap (λ p. p.1) (scanned s)) ∙ e

    again : found env b ≡ none → found env (full_scan env.check env.hold b).0 ≡ none
    again n =
        scan-Alike env b.line_mask _ b.elements [] [] f (scan-none env b.line_mask [] b.elements n)
          tt
        ∙ n

true≢false : true ≡ false → ⊥
true≢false e = cc

Step-flag :
    {env env' : Env} {b b' : Buffer}
    → Step env b env' b'
    → b.readiness_state_only ≡ true
    → b'.readiness_state_only ≡ true
unfolding push_back push_front push_front_ordered mark_dirty get_first_ready
Step-flag (pushed_back item state force) r = ground arith
Step-flag (pushed_front item) r = r
Step-flag (pushed_front_ordered item) r = r
Step-flag (marked env') r = r
Step-flag (handed env' m e) r = ground arith
Step-flag (fruitless e) r = ground arith

Reach-flag :
    {env : Env} {b : Buffer} {env' : Env} {b' : Buffer}
    → Reach env b env' b'
    → b.readiness_state_only ≡ true
    → b'.readiness_state_only ≡ true
Reach-flag start r = r
Reach-flag (followed q f s) r = Step-flag s (Reach-flag q r)

Step-IsClean :
    {env env' : Env} {b b' : Buffer}
    → IsStateless env
    → Step env b env' b'
    → IsClean env b
    → IsClean env' b'
unfolding push_front push_front_ordered mark_dirty
Step-IsClean f (pushed_back item state force) c = push_back-IsClean _ _ item state force c
Step-IsClean f (pushed_front item) c = λ r d. absurd (true≢false d)
Step-IsClean f (pushed_front_ordered item) c = λ r d. absurd (true≢false d)
Step-IsClean f (marked env') c = λ r d. absurd (true≢false d)
Step-IsClean f (handed env' m e) c = next-IsClean _ env' _ m e
Step-IsClean f (fruitless e) c = fruitless-IsClean _ _ f c e

pub Reach-IsClean :
    {env : Env} {b : Buffer} {env' : Env} {b' : Buffer}
    → Reach env b env' b'
    → IsClean env b
    → IsClean env' b'
Reach-IsClean start c = c
Reach-IsClean (followed r f s) c = Step-IsClean f s (Reach-IsClean r c)

-- From an empty queue on, whatever is pushed and handed out, and whatever the caches do when the
-- rules allow it: the queue that skips its scans while it is clean answers each `getFirstReady` as
-- one that always scans.
pub get_first_ready-skip :
    (max : Option ℕ) (mask : ℕ) (env env' : Env) (b : Buffer)
    → Reach env (new_buffer max mask true) env' b
    → (get_first_ready env'.check env'.hold b).1
      ≡ (get_first_ready env'.check env'.hold (record b { readiness_state_only = false })).1
unfolding get_first_ready new_buffer
get_first_ready-skip max mask env env' b r = elim (Bool-cases b.dirty) [
  | inl d ↦ rw (flag, d)
  | inr d ↦ rw (flag, d) (sym (Reach-IsClean r (λ r d. absurd (true≢false d)) flag d))
]
  where
    flag : b.readiness_state_only ≡ true
    flag = Reach-flag r refl
