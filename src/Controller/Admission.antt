-- ===== src/Controller/Admission.antt =====
-- CacheController::canAdmitRequest and the entries of `m_pending_requests`; what `processLogic` does
-- with a request that is not admitted.
use octopus_simulator.Common.{
  ok, and_run, Ends, ended, ℕ, suc, ◌≤◌, ◌<◌, ◌≡◌, refl, ap, sym, ◌∙◌, subst, inl, inr, Bool, true,
  false, ◌||◌, not, Option, none, some, List, [], ◌∷◌, ◌++◌, length, find, find_all, put, ◌==◌,
  if◌then◌else◌, is_some, Bool-cases, arith,
}
use octopus_simulator.Message.{Message, is_demand_request}
use octopus_simulator.Queue.{at_limit, push_back, non_ready}
use octopus_simulator.Cache.Registers.{is_address_tracked}
use octopus_simulator.Controller.{Controller, Parts}
use octopus_simulator.Controller.Access.{address_key, can_admit_request}
use octopus_simulator.Controller.Effects.{add_to_pending_requests}
use octopus_simulator.Controller.Cycle.{next_ready, process_message, process_rounds}

length-put {ℓ} :
    {A : Type ℓ} (m : List (ℕ × A)) (k : ℕ) (a : A)
    → length (put m k a) ≡ (if is_some (find m k) then length m else suc (length m))
length-put [] k a = refl
length-put ((j, b) ∷ m) k a = elim (Bool-cases (j == k)) [
  | inl e ↦ rw e refl
  | inr e ↦ rw e (ap suc (length-put m k a) ∙ lift (is_some (find m k)))
]
  where
    lift :
        (t : Bool)
        → suc (if t then length m else suc (length m))
          ≡ (if t then suc (length m) else suc (suc (length m)))
    lift true = refl
    lift false = refl

-- A new miss that passes the test finds a free entry.
free_entry :
    (limit : Option ℕ) (k n : ℕ) (demand tracked waiting : Bool)
    → limit ≡ some k
    → demand ≡ true
    → tracked ≡ false
    → waiting ≡ false
    → (not demand || tracked || waiting || not (at_limit limit n)) ≡ true
    → n < k
free_entry none k n demand tracked waiting e d t w h = cc
free_entry (some j) k n true false false e d t w h = ground (arith, e, h)
free_entry (some j) k n false tracked waiting e d t w h = cc
free_entry (some j) k n true true waiting e d t w h = cc
free_entry (some j) k n true false true e d t w h = cc

module _ {U L : Type 0} (parts : Parts U L) (c : Controller U L) (m : Message) (k : ℕ)
    (mshr : c.num_mshr ≡ some k) (demand : is_demand_request m ≡ true) where
  -- If at most `num_mshr` lines have an entry in the pending table, then that is so still after an admitted
  -- demand for a line that the cache does not track has been added.
  pub add_to_pending_requests-bound :
      is_address_tracked c.data_handler m.addr ≡ false
      → can_admit_request c m ≡ true
      → length c.pending_requests ≤ k
      → Ends (λ d. length d.pending_requests ≤ k) (add_to_pending_requests parts c m)
  unfolding add_to_pending_requests can_admit_request
  add_to_pending_requests-bound t a b = ended grown
    where
      key : ℕ
      key = address_key c m.addr

      all : List Message
      all = find_all c.pending_requests key ++ m ∷ []

      grown : length (put c.pending_requests key all) ≤ k
      grown = elim (Bool-cases (is_some (find c.pending_requests key))) [
        | inl g ↦ rw (length-put c.pending_requests key all, g) b
        | inr g ↦
            rw (length-put c.pending_requests key all, g)
              (free_entry c.num_mshr k (length c.pending_requests) (is_demand_request m)
                (is_address_tracked c.data_handler m.addr) (is_some (find c.pending_requests key))
                mshr demand t g a)
      ]

  -- A demand for a line that the cache tracks and that has no entry in the pending table is admitted when the
  -- table has `num_mshr` entries, and adding it makes one more.
  add_to_pending_requests-over :
      is_address_tracked c.data_handler m.addr ≡ true
      → is_some (find c.pending_requests (address_key c m.addr)) ≡ false
      → length c.pending_requests ≡ k
      → (can_admit_request c m ≡ true)
        × Ends (λ d. length d.pending_requests ≡ suc k) (add_to_pending_requests parts c m)
  unfolding add_to_pending_requests can_admit_request
  add_to_pending_requests-over t g b = (
    rw (demand, t) refl,
    ended (
        rw
          (
            length-put c.pending_requests (address_key c m.addr)
                (find_all c.pending_requests (address_key c m.addr) ++ m ∷ []),
            g,
          )
          (ap suc b)),
  )

module _ {U L : Type 0} (parts : Parts U L) where
  -- The controller after the refusal of a message that its queue has handed out.
  abbrev pub refused : Controller U L → Message → Controller U L
  refused d m =
      if at_limit d.processing_queue.max_size (length d.processing_queue.elements)
      then d
      else record d {
        processing_queue = record d.processing_queue {
          elements = d.processing_queue.elements ++ record { item = m; state = non_ready } ∷ [];
          dirty = true;
        };
      }

  process_message-refused :
      (d : Controller U L) (m : Message)
      → can_admit_request d m ≡ false
      → process_message parts d m ≡ ok (refused d m, false)
  unfolding process_message push_back
  process_message-refused d m a =
      elim (Bool-cases
        (at_limit d.processing_queue.max_size (length d.processing_queue.elements))) [
          | inl e ↦ rw (a, e) refl
          | inr e ↦ rw (a, e) refl
        ]

  -- If the queue hands out a message that is not admitted, then the loop of `processLogic` ends. The message
  -- stands last in the queue again, as not ready, if the queue is below its bound without it; if not, the
  -- controller is as the queue's hand-out left it, without the message.
  pub process_rounds-refused :
      (n : ℕ) (c d : Controller U L) (m : Message)
      → next_ready parts c ≡ (d, some m)
      → can_admit_request d m ≡ false
      → process_rounds parts (suc n) c ≡ ok (refused d m)
  unfolding process_rounds
  process_rounds-refused n c d m popped a =
      subst Refused (sym popped) (rw (process_message-refused d m a) refl)
    where
      Refused : Controller U L × Option Message → Type 0
      Refused r =
          elim r.1 [
            | none ↦ ok r.0
            | some m ↦
                and_run (process_message parts r.0 m) (λ (c', goes_on). elim goes_on [
                  | true ↦ process_rounds parts n c'
                  | false ↦ ok c'
                ])
          ]
          ≡ ok (refused d m)
