-- ===== src/Bus/Triple/Channels.antt =====
-- TripleInterface: the request and the service channel of an agent, their messages with their numbers,
-- and what a delivery or a receive does to both together.
use octopus_simulator.Common.{
  ℕ, suc, ◌+◌, ◌≡◌, ◌≤◌, ◌<◌, refl, sym, ap, ◌∙◌, subst, Bool, true, false, ◌&&◌, ◌||◌, not, Option,
  none, some, List, [], ◌∷◌, ◌++◌, map, length, ltb→lt, ltb→le, arith,
}
use mathlib.Core.List.{append_assoc, append-nil, map-append}
use octopus_simulator.Message.{Message}
use octopus_simulator.Bus.{head?, tail}
use octopus_simulator.Bus.Triple.{is_empty, drop_first, precedes}
use octopus_simulator.Bus.Triple.Merge.{
  Rising, place, merge, merge-service, merge-request, merge-last_service, merge-last_request,
  Rising-later, Rising-below, Rising-last, All-weaken, length-place,
}

abbrev pub Entries : Type 0
Entries = List (ℕ × Message)

-- A receive buffer with its numbers.
abbrev pub Channel : Type 0
Channel = List Message × List ℕ

abbrev pub channel : Entries → Channel
channel es = (map (λ (e : ℕ × Message). e.1) es, map (λ (e : ℕ × Message). e.0) es)

abbrev pub messages : Entries → List Message
messages = map (λ (e : ℕ × Message). e.1)

-- The two channels hold numbered entries, and merged they are what was delivered and not yet taken.
abbrev pub Holds : ℕ → Channel × Channel → List Message → List Message → Type 0
Holds n q d t =
    (rs : Entries) × (ss : Entries) × (q ≡ (channel rs, channel ss))
    × Rising n rs
    × Rising n ss
    × (d ≡ t ++ messages (merge rs ss))

length-messages : (es : Entries) → length (messages es) ≡ length es
length-messages [] = refl
length-messages (e ∷ es) = omega (arith, length-messages es)

pub length-merge :
    (rs ss : Entries)
    → length (messages (merge rs ss)) ≡ length (messages rs) + length (messages ss)
unfolding merge
length-merge rs [] = omega arith
length-merge rs (s ∷ ss) = omega (
  arith,
  length-merge rs ss,
  length-place s (merge rs ss),
  length-messages (merge rs ss),
  length-messages (place s (merge rs ss)),
)

channel-last :
    (es : Entries) (n : ℕ) (m : Message)
    → channel (es ++ (n, m) ∷ []) ≡ ((channel es).0 ++ m ∷ [], (channel es).1 ++ n ∷ [])
channel-last [] n m = refl
channel-last (e ∷ es) n m = ap (λ (c : Channel). (e.1 ∷ c.0, e.0 ∷ c.1)) (channel-last es n m)

delivered-last :
    (d t : List Message) (es es' : Entries) (n : ℕ) (m : Message)
    → d ≡ t ++ messages es
    → es' ≡ es ++ (n, m) ∷ []
    → d ++ m ∷ [] ≡ t ++ messages es'
delivered-last d t es es' n m e f =
    ap (λ ms. ms ++ m ∷ []) e
    ∙ append_assoc t (messages es) (m ∷ [])
    ∙ ap (λ ms. t ++ ms) (sym (map-append (λ (x : ℕ × Message). x.1) es ((n, m) ∷ [])))
    ∙ ap (λ xs. t ++ messages xs) (sym f)

taken-first :
    (d t : List Message) (es es' : Entries) (e : ℕ × Message)
    → d ≡ t ++ messages es
    → es ≡ e ∷ es'
    → d ≡ (t ++ e.1 ∷ []) ++ messages es'
taken-first d t es es' e f g =
    f ∙ ap (λ xs. t ++ messages xs) g ∙ sym (append_assoc t (e.1 ∷ []) (messages es'))

pub Holds-request :
    (n : ℕ) (q : Channel × Channel) (d t : List Message) (m : Message)
    → Holds n q d t
    → Holds (suc n) ((q.0.0 ++ m ∷ [], q.0.1 ++ suc n ∷ []), q.1) (d ++ m ∷ []) t
Holds-request n q d t m (rs, ss, e, h, k, g) = (
  rs ++ (suc n, m) ∷ [],
  ss,
  ap (λ (c : Channel × Channel). ((c.0.0 ++ m ∷ [], c.0.1 ++ suc n ∷ []), c.1)) e
      ∙ ap (λ (c : Channel). (c, channel ss)) (sym (channel-last rs (suc n) m)),
  Rising-last n rs m h,
  Rising-later n ss k,
  delivered-last d t (merge rs ss) (merge (rs ++ (suc n, m) ∷ []) ss) (suc n) m g
      (merge-last_request (suc n, m) rs ss (Rising-below n ss k)),
)

pub Holds-service :
    (n : ℕ) (q : Channel × Channel) (d t : List Message) (m : Message)
    → Holds n q d t
    → Holds (suc n) (q.0, (q.1.0 ++ m ∷ [], q.1.1 ++ suc n ∷ [])) (d ++ m ∷ []) t
Holds-service n q d t m (rs, ss, e, h, k, g) = (
  rs,
  ss ++ (suc n, m) ∷ [],
  ap (λ (c : Channel × Channel). (c.0, (c.1.0 ++ m ∷ [], c.1.1 ++ suc n ∷ []))) e
      ∙ ap (λ (c : Channel). (channel rs, c)) (sym (channel-last ss (suc n) m)),
  Rising-later n rs h,
  Rising-last n ss m k,
  delivered-last d t (merge rs ss) (merge rs (ss ++ (suc n, m) ∷ [])) (suc n) m g
      (merge-last_service (suc n, m) rs ss (Rising-below n rs h) (Rising-below n ss k)),
)

pub Holds-later :
    (n : ℕ) (q : Channel × Channel) (d t : List Message) → Holds n q d t → Holds (suc n) q d t
Holds-later n q d t (rs, ss, e, h, k, g) = (rs, ss, e, Rising-later n rs h, Rising-later n ss k, g)

abbrev pub list_of : Option Message → List Message
list_of none = []
list_of (some m) = m ∷ []

-- `serves_service`, on the two channels.
abbrev pub serves : Channel × Channel → Bool
serves q = not (is_empty q.1.0) && (is_empty q.0.0 || precedes q.1.1 q.0.1)

abbrev pub without_service : Channel × Channel → Channel × Channel
without_service q = (q.0, (tail q.1.0, drop_first q.1.1))

abbrev pub without_request : Channel × Channel → Channel × Channel
without_request q = ((tail q.0.0, drop_first q.0.1), q.1)

service_taken :
    (n : ℕ) (rs ss : Entries) (d t : List Message)
    → Rising n rs
    → Rising n ss
    → d ≡ t ++ messages (merge rs ss)
    → serves (channel rs, channel ss) ≡ true
    → Holds n (without_service (channel rs, channel ss)) d (t ++ list_of (head? (channel ss).0))
service_taken n rs [] d t h k g c = absurd (ground arith)
service_taken n [] (s ∷ ss) d t h k g c = (
  [],
  ss,
  refl,
  h,
  k.2,
  taken-first d t (merge [] (s ∷ ss)) (merge [] ss) s g (merge-service s [] ss tt k.1),
)
service_taken n (r ∷ rs) (s ∷ ss) d t h k g c = (
  r ∷ rs,
  ss,
  refl,
  h,
  k.2,
  taken-first d t (merge (r ∷ rs) (s ∷ ss)) (merge (r ∷ rs) ss) s g (
      merge-service s (r ∷ rs) ss
        (
          ltb→lt s.0 r.0 c,
          All-weaken (λ (x : ℕ × Message). r.0 < x.0) (λ (x : ℕ × Message). s.0 < x.0) rs
              (λ x l. omega (arith, l, ltb→lt s.0 r.0 c)) h.1,
        )
        k.1),
)

request_taken :
    (n : ℕ) (rs ss : Entries) (d t : List Message)
    → Rising n rs
    → Rising n ss
    → d ≡ t ++ messages (merge rs ss)
    → serves (channel rs, channel ss) ≡ false
    → Holds n (without_request (channel rs, channel ss)) d (t ++ list_of (head? (channel rs).0))
request_taken n [] ss d t h k g c =
    ([], ss, refl, h, k, g ∙ ap (λ ts. ts ++ messages (merge [] ss)) (sym (append-nil t)))
request_taken n (r ∷ rs) [] d t h k g c = (
  rs,
  [],
  refl,
  h.2,
  k,
  taken-first d t (merge (r ∷ rs) []) (merge rs []) r g (merge-request r rs [] tt),
)
request_taken n (r ∷ rs) (s ∷ ss) d t h k g c = (
  rs,
  s ∷ ss,
  refl,
  h.2,
  k,
  taken-first d t (merge (r ∷ rs) (s ∷ ss)) (merge rs (s ∷ ss)) r g (
      merge-request r rs (s ∷ ss) (
        ltb→le s.0 r.0 c,
        All-weaken (λ (x : ℕ × Message). s.0 < x.0) (λ (x : ℕ × Message). r.0 ≤ x.0) ss
            (λ x l. omega (arith, l, ltb→le s.0 r.0 c)) k.1,
      )),
)

pub Holds-without_service :
    (n : ℕ) (q : Channel × Channel) (d t : List Message)
    → Holds n q d t
    → serves q ≡ true
    → Holds n (without_service q) d (t ++ list_of (head? q.1.0))
Holds-without_service n q d t (rs, ss, e, h, k, g) =
    subst
      (λ (x : Channel × Channel).
        serves x ≡ true → Holds n (without_service x) d (t ++ list_of (head? x.1.0)))
      (sym e) (service_taken n rs ss d t h k g)

pub Holds-without_request :
    (n : ℕ) (q : Channel × Channel) (d t : List Message)
    → Holds n q d t
    → serves q ≡ false
    → Holds n (without_request q) d (t ++ list_of (head? q.0.0))
Holds-without_request n q d t (rs, ss, e, h, k, g) =
    subst
      (λ (x : Channel × Channel).
        serves x ≡ false → Holds n (without_request x) d (t ++ list_of (head? x.0.0)))
      (sym e) (request_taken n rs ss d t h k g)

pub Holds-none :
    (n : ℕ) (q : Channel × Channel) (d t : List Message) → Holds n q d t → Holds n q d (t ++ [])
Holds-none n q d t = subst (Holds n q d) (sym (append-nil t))
