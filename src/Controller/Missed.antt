-- ===== src/Controller/Missed.antt =====
-- CacheController_End2End::addRequests2ProcessingQueue on an interface of a bus: the message whose owner is
-- noted, and the message that is taken in.
use octopus_simulator.Common.{ℕ, ◌≡◌, ◌≢◌, refl, ap, ◌∙◌, Option, none, some, List, ◌∷◌}
use octopus_simulator.Message.{Message, upper_interconnect}
use octopus_simulator.Queue.{push_front_ordered}
use octopus_simulator.Bus.{
  BusInterface, Selector, neither, requests, responses, peek_message, pop_front_message, choose,
  choose_response, choose_again, head_of, pop_from, head?, tail,
}
use octopus_simulator.Controller.{Controller, Port, Rules, Parts}
use octopus_simulator.Controller.Respond.{bus_port}
use octopus_simulator.Controller.Cycle.{intake_upper}
use octopus_simulator.Controller.EndToEnd.{EndToEnd, latest_owner, note_owner}

abbrev seen : BusInterface → Selector → BusInterface × Option Message
seen i s = (record i { selector = s }, head_of s i)

choose-requests :
    (s : Selector) (r : Message) (rs ds : List Message)
    → s ≢ requests
    → choose_again (choose s (r ∷ rs) ds) (r ∷ rs) ds ≡ requests
unfolding choose choose_again
choose-requests neither r rs ds h = refl
choose-requests responses r rs ds h = refl
choose-requests requests r rs ds h = absurd (h refl)

peek_message-request :
    (i : BusInterface) (r : Message) (rs : List Message)
    → i.rx_request ≡ r ∷ rs
    → i.selector ≢ requests
    → peek_message i ≡ (record i { selector = requests }, some r)
unfolding peek_message head_of
peek_message-request i r rs h s =
    ap (seen i) (
      ap (λ ms. choose_again (choose i.selector ms i.rx_response) ms i.rx_response) h
      ∙ choose-requests i.selector r rs i.rx_response s)
    ∙ ap (λ ms. (record i { selector = requests }, head? ms)) h

-- The peek that follows.
peek_message-response :
    (i : BusInterface) (r d : Message) (rs ds : List Message)
    → i.rx_request ≡ r ∷ rs
    → i.rx_response ≡ d ∷ ds
    → peek_message (record i { selector = requests }) ≡ (record i { selector = responses }, some d)
unfolding peek_message head_of choose choose_again choose_response
peek_message-response i r d rs ds h k =
    ap (seen (record i { selector = requests })) (
      ap (λ ms. choose_again (choose requests ms i.rx_response) ms i.rx_response) h
      ∙ ap (λ ms. choose_again (choose requests (r ∷ rs) ms) (r ∷ rs) ms) k)
    ∙ ap (λ ms. (record i { selector = responses }, head? ms)) k

module _ {L : Type 0} (lower : Port L) (rules : Rules) (draw : ℕ → ℕ) where
  abbrev pub below_bus : Parts BusInterface L
  below_bus = record { upper_port = bus_port; lower_port = lower; rules = rules; draw = draw }

  -- The controller after it took in the first response of its interface.
  abbrev pub took_response :
      Controller BusInterface L → Message → List Message → Controller BusInterface L
  took_response c d ds = record c {
    upper_interface = record c.upper_interface { selector = responses; rx_response = ds };
    processing_queue =
        push_front_ordered c.processing_queue (record d { source = upper_interconnect });
  }

  abbrev taken :
      Controller BusInterface L → BusInterface × Option Message → Controller BusInterface L
  taken c (u, found) = elim found [
    | none ↦ record c { upper_interface = u }
    | some m ↦ record c {
      upper_interface = pop_front_message u;
      processing_queue =
          push_front_ordered c.processing_queue (record m { source = upper_interconnect });
    }
  ]

  -- If a request without data and a response wait at the interface, and the last peek was not at the
  -- requests, then the controller takes in the response, but the owner of the latest data stays what it
  -- was: the peek that notes the owner sees the request, and the next peek the response.
  pub note_owner-misses :
      (e : EndToEnd BusInterface L) (r d : Message) (rs ds : List Message)
      → e.controller.upper_interface.rx_request ≡ r ∷ rs
      → e.controller.upper_interface.rx_response ≡ d ∷ ds
      → e.controller.upper_interface.selector ≢ requests
      → r.payload ≡ none
      → ((note_owner below_bus e).owner_of_latest_data ≡ e.owner_of_latest_data)
        × (intake_upper below_bus (note_owner below_bus e).controller
            ≡ took_response e.controller d ds)
  unfolding note_owner latest_owner intake_upper pop_front_message pop_from
  note_owner-misses e r d rs ds h k s p =
      let i = e.controller.upper_interface in
      let first = peek_message-request i r rs h s in
      (
        ap (λ q. latest_owner e.owner_of_latest_data q.1) first
            ∙ ap
                (λ payload. elim payload [
                  | none ↦ e.owner_of_latest_data
                  | some bytes ↦ some r.owner
                ])
                p,
        ap (λ q. intake_upper below_bus (record (e.controller) { upper_interface = q.0 })) first
            ∙ ap (taken e.controller) (peek_message-response i r d rs ds h k)
            ∙ ap (λ ms. took_response e.controller d ms) (ap tail k),
      )
