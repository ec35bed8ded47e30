-- ===== src/Bus/Receive.antt =====
-- BusInterface: what a receiver takes out of its two receive buffers, and in which order.
use octopus_simulator.Common.{◌≡◌, ◌≢◌, refl, ◌⊎◌, inl, inr, none, some, List, [], ◌∷◌, arith}
use octopus_simulator.Message.{Message}
use octopus_simulator.Bus.{
  BusInterface, Selector, neither, requests, responses, peek_message, pop_front_message,
}

-- One receive: a peek, and the pop of what was peeked.
abbrev pub receive : BusInterface → BusInterface
receive i = pop_front_message (peek_message i).0

-- The outcomes of a receive on an interface that holds the requests `ms` and the responses `rs`.
abbrev pub Receives : BusInterface → List Message → List Message → Type 0
Receives i ms rs =
    ((ms ≡ [])
      × (rs ≡ [])
      × ((peek_message i).1 ≡ none)
      × (receive i ≡ record i { selector = neither }))
    ⊎ (((m : Message) × (ms' : List Message) × (ms ≡ m ∷ ms')
          × ((peek_message i).1 ≡ some m)
          × (receive i ≡ record i { selector = requests; rx_request = ms' })
          × (i.selector ≡ requests → rs ≡ []))
        ⊎ ((r : Message) × (rs' : List Message) × (rs ≡ r ∷ rs')
            × ((peek_message i).1 ≡ some r)
            × (receive i ≡ record i { selector = responses; rx_response = rs' })
            × (i.selector ≢ requests → ms ≡ [])))

Receives-cases :
    (i : BusInterface) (s : Selector) (ms rs : List Message)
    → i.selector ≡ s
    → i.rx_request ≡ ms
    → i.rx_response ≡ rs
    → Receives i ms rs
unfolding peek_message pop_front_message
Receives-cases i s [] [] e f g = inl (refl, refl, ground arith, ground arith)
Receives-cases i s (m ∷ ms) [] e f g =
    inr (inl (m, ms, refl, ground arith, ground arith, λ h. refl))
Receives-cases i s [] (r ∷ rs) e f g =
    inr (inr (r, rs, refl, ground arith, ground arith, λ h. refl))
Receives-cases i neither (m ∷ ms) (r ∷ rs) e f g =
    inr (inl (m, ms, refl, ground arith, ground arith, λ h. absurd (ground arith)))
Receives-cases i responses (m ∷ ms) (r ∷ rs) e f g =
    inr (inl (m, ms, refl, ground arith, ground arith, λ h. absurd (ground arith)))
Receives-cases i requests (m ∷ ms) (r ∷ rs) e f g =
    inr (inr (r, rs, refl, ground arith, ground arith, λ h. absurd (h e)))

-- A receive finds nothing only if both receive buffers are empty. Otherwise it serves the first
-- message of one buffer and takes it out, and nothing else changes but the selector; a second
-- request in a row is served only if no response waits, and a response after no request only if no
-- request waits.
receive-Receives : (i : BusInterface) → Receives i i.rx_request i.rx_response
receive-Receives i = Receives-cases i i.selector i.rx_request i.rx_response refl refl refl

-- While requests and responses wait, two receives in a row serve one of each.
receive-alternates :
    (i : BusInterface) (m r : Message) (ms rs : List Message)
    → i.rx_request ≡ m ∷ ms
    → i.rx_response ≡ r ∷ rs
    → (((peek_message i).1 ≡ some m) × ((peek_message (receive i)).1 ≡ some r))
      ⊎ (((peek_message i).1 ≡ some r) × ((peek_message (receive i)).1 ≡ some m))
unfolding peek_message pop_front_message
receive-alternates i m r ms rs f g = alternate i.selector refl
  where
    alternate :
        (s : Selector)
        → i.selector ≡ s
        → (((peek_message i).1 ≡ some m) × ((peek_message (receive i)).1 ≡ some r))
          ⊎ (((peek_message i).1 ≡ some r) × ((peek_message (receive i)).1 ≡ some m))
    alternate neither e = inl (ground arith, ground arith)
    alternate requests e = inr (ground arith, ground arith)
    alternate responses e = inl (ground arith, ground arith)
