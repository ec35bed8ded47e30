-- ===== src/Controller/Respond.antt =====
-- BaseController::removePendingAndRespond on an interface of a bus: the requests that wait for a line are
-- answered together.
use octopus_simulator.Common.{
  Outcome, ok, exits, and_run, ℕ, ◌+◌, ◌≤◌, ◌<◌, ◌≡◌, refl, sym, ap, ◌∙◌, subst, false, Option,
  none, some, List, [], ◌∷◌, ◌++◌, map, length, length-append, find, drop_key, lt→ltb, arith,
}
use octopus_simulator.Message.{Message, data_response}
use octopus_simulator.Bus.{
  BusInterface, peek_message, pop_front_message, push_message, push_message_to_rx, stamped,
}
use octopus_simulator.Controller.{Controller, Port, Rules, Parts}
use octopus_simulator.Controller.Access.{address_key}
use octopus_simulator.Controller.Effects.{
  sent_lower, answer_to, when_granted, when_readable, with_read, respond_each, respond_pending,
  read_for, remove_pending_and_respond,
}
use octopus_simulator.Cache.Line.{new_line}
use octopus_simulator.Cache.Accesses.{read_cache_line}
use octopus_simulator.Protocol.Actions.{ControllerAction, remove_pending}
use mathlib.Core.List.{append_assoc, append-nil}

-- An interface of a bus as a CommunicationInterface.
abbrev pub bus_port : Port BusInterface
bus_port = record {
  peek = peek_message;
  pop = pop_front_message;
  push = push_message;
  push_to_rx = push_message_to_rx;
}

module _ {U : Type 0} (upper : Port U) (rules : Rules) (draw : ℕ → ℕ) where
  abbrev pub bus_parts : Parts U BusInterface
  bus_parts = record { upper_port = upper; lower_port = bus_port; rules = rules; draw = draw }

  -- What the interface sends for the waiting requests.
  abbrev pub answers : Controller U BusInterface → Message → List ℕ → List Message → List Message
  answers c m bytes =
      map (λ (p : Message). stamped c.lower_interface.id c.cache_cycle (answer_to m bytes p))

  abbrev pub sending : Controller U BusInterface → List Message → Controller U BusInterface
  sending c ms = record c {
    lower_interface = record c.lower_interface {
      tx_response = c.lower_interface.tx_response ++ ms;
    };
  }

  sent_one :
      (c : Controller U BusInterface) (m : Message)
      → length c.lower_interface.tx_response < c.lower_interface.max_size
      → sent_lower bus_parts c (push_message c.lower_interface m c.cache_cycle data_response)
        ≡ ok (sending c (stamped c.lower_interface.id c.cache_cycle m ∷ []))
  unfolding push_message
  sent_one c m h = rw (lt→ltb _ _ h) refl

  respond_each-all :
      (c : Controller U BusInterface) (m : Message) (bytes : List ℕ) (ps : List Message)
      → m.payload ≡ some bytes
      → length c.lower_interface.tx_response + length ps ≤ c.lower_interface.max_size
      → respond_each bus_parts c m ps ≡ ok (sending c (answers c m bytes ps))
  unfolding respond_each
  respond_each-all c m bytes [] e h =
      ap (λ ms. ok (record c { lower_interface = record c.lower_interface { tx_response = ms } }))
        (sym (append-nil c.lower_interface.tx_response))
  respond_each-all c m bytes (p ∷ ps) e h = subst Goal (sym e) (
      rw (sent_one c (answer_to m bytes p) (omega (arith, h))) (
        respond_each-all (sending c first) m bytes ps e room
        ∙ ap
            (λ ms.
              ok (record c { lower_interface = record c.lower_interface { tx_response = ms } }))
            (append_assoc c.lower_interface.tx_response first (answers c m bytes ps))))
    where
      first : List Message
      first = stamped c.lower_interface.id c.cache_cycle (answer_to m bytes p) ∷ []

      room :
          length (c.lower_interface.tx_response ++ first) + length ps ≤ c.lower_interface.max_size
      room = omega (arith, h, length-append c.lower_interface.tx_response first)

      Goal : Option (List ℕ) → Type 0
      Goal o =
          elim o [
            | none ↦ exits
            | some b ↦
                and_run
                  (sent_lower bus_parts c
                    (push_message c.lower_interface (answer_to m b p) c.cache_cycle data_response))
                  (λ c'. respond_each bus_parts c' m ps)
          ]
          ≡ ok (sending c (answers c m bytes (p ∷ ps)))

  respond_pending-answers :
      (c : Controller U BusInterface) (m : Message) (bytes : List ℕ) (ps : List Message)
      → m.payload ≡ some bytes
      → find c.pending_requests (address_key c m.addr) ≡ some ps
      → length c.lower_interface.tx_response + length ps ≤ c.lower_interface.max_size
      → respond_pending bus_parts (c, m)
        ≡ ok (record (sending c (answers c m bytes ps)) {
          pending_requests = drop_key c.pending_requests (address_key c m.addr);
        })
  unfolding respond_pending
  respond_pending-answers c m bytes ps e f h =
      subst Goal (sym f) (rw (respond_each-all c m bytes ps e h) refl)
    where
      Goal : Option (List Message) → Type 0
      Goal o =
          elim o [
            | none ↦ exits
            | some qs ↦ and_run (respond_each bus_parts c m qs) (λ c'. ok (record c' {
              pending_requests = drop_key c'.pending_requests (address_key c' m.addr);
            }))
          ]
          ≡ ok (record (sending c (answers c m bytes ps)) {
            pending_requests = drop_key c.pending_requests (address_key c m.addr);
          })

  read_for_data :
      (c : Controller U BusInterface) (m : Message) (bytes : List ℕ)
      → m.payload ≡ some bytes
      → read_for bus_parts c m ≡ (c, m)
  unfolding read_for
  read_for_data c m bytes e = subst (λ o. read o ≡ (c, m)) (sym e) refl
    where
      read : Option (List ℕ) → Controller U BusInterface × Message
      read o = elim o [
        | some b ↦ (c, m)
        | none ↦
            let (found, d) = read_cache_line c.data_handler m.addr (some new_line) false in
            (record c { data_handler = d }, with_read m found)
      ]

  when_readable_data :
      (c : Controller U BusInterface) (m : Message) (bytes : List ℕ) (a : ControllerAction)
      (rest : Outcome (Controller U BusInterface))
      → m.payload ≡ some bytes
      → when_readable bus_parts c m a rest ≡ rest
  unfolding when_readable
  when_readable_data c m bytes a rest e =
      subst (λ o. elim o [ some b ↦ rest | none ↦ when_granted bus_parts c m a rest ] ≡ rest)
        (sym e) refl

  -- If a message with data comes for a line with waiting requests and the interface has room for an answer to
  -- each, then each is answered with the data, in the order of their arrival, behind what the
  -- interface has to send, and the line has no entry in the pending table any more.
  pub remove_pending_and_respond-answers :
      (c : Controller U BusInterface) (m : Message) (bytes : List ℕ) (ps : List Message)
      → m.payload ≡ some bytes
      → find c.pending_requests (address_key c m.addr) ≡ some ps
      → length c.lower_interface.tx_response + length ps ≤ c.lower_interface.max_size
      → remove_pending_and_respond bus_parts c m
        ≡ ok (record (sending c (answers c m bytes ps)) {
          pending_requests = drop_key c.pending_requests (address_key c m.addr);
        })
  unfolding remove_pending_and_respond
  remove_pending_and_respond-answers c m bytes ps e f h =
      when_readable_data c m bytes (remove_pending m) _ e
      ∙ ap (respond_pending bus_parts) (read_for_data c m bytes e)
      ∙ respond_pending-answers c m bytes ps e f h
