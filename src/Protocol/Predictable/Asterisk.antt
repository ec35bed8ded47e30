-- ===== src/Protocol/Predictable/Asterisk.antt =====
-- PMSIAsteriskProtocol and PMESIAsteriskProtocol: events that have one number.
use octopus_simulator.Common.{
  ℕ, ◌≡◌, ◌≢◌, refl, ap, ◌∙◌, none, some, List, ◌∷◌, ◌==◌, if_keeps, and_then, arith,
}
use octopus_simulator.Message.{Message, upper_interconnect}
use octopus_simulator.Protocol.Msi.{
  own_data, invalidation, event_number, read_event, event_from, bus_event,
}
use octopus_simulator.Protocol.Mesi.{own_data_exclusive, mesi_event, read_mesi_event}
use octopus_simulator.Protocol.Predictable.{
  pmsi_asterisk, pmesi_asterisk, data_number, asterisk_number, mesi_asterisk_number,
  read_predictable,
}

read_event-invalidation :
    (id : ℕ) (m : Message)
    → m.source ≡ upper_interconnect
    → m.payload ≡ none
    → m.complementary_value ≡ 10
    → read_event id m ≡ some invalidation
unfolding read_event event_from bus_event
read_event-invalidation id m s p v = rw (s, p, v) refl

read_event-own_data :
    (id : ℕ) (m : Message) (bytes : List ℕ)
    → m.source ≡ upper_interconnect
    → m.payload ≡ some bytes
    → read_event id m ≡ some own_data
unfolding read_event event_from
read_event-own_data id m bytes s p = rw (s, p) refl

data_number-other :
    (memory rdc t : ℕ) (ts : List ℕ) → t ≢ memory → data_number memory rdc (t ∷ ts) ≡ some rdc
unfolding data_number
data_number-other memory rdc t ts h = ground arith

mesi_event-exclusive :
    (m : Message)
    → m.complementary_value ≡ 2
    → mesi_event own_data m ≡ (own_data_exclusive, record m { complementary_value = 0 })
unfolding mesi_event
mesi_event-exclusive m v =
    if_keeps (λ p. p ≡ (own_data_exclusive, record m { complementary_value = 0 }))
      (m.complementary_value == 2) (λ _. refl) (λ e. absurd (ground arith))

-- An invalidation from the bus is read by the PMSI asterisk protocol as the event 10, which is its number
-- of data that another cache sends, and by the PMESI asterisk protocol as the event 10 too, which is
-- its number of exclusive data from the shared cache: no row of a table can tell them apart.
pub read_predictable-same_number :
    (id memory t : ℕ) (ts bytes bytes' : List ℕ) (inv reply exclusive : Message)
    → inv.source ≡ upper_interconnect
    → inv.payload ≡ none
    → inv.complementary_value ≡ 10
    → reply.source ≡ upper_interconnect
    → reply.payload ≡ some bytes
    → reply.to ≡ t ∷ ts
    → t ≢ memory
    → exclusive.source ≡ upper_interconnect
    → exclusive.payload ≡ some bytes'
    → exclusive.complementary_value ≡ 2
    → (read_predictable pmsi_asterisk id memory inv ≡ some (10, inv))
      × (read_predictable pmsi_asterisk id memory reply ≡ some (10, reply))
      × (read_predictable pmesi_asterisk id memory inv ≡ some (10, inv))
      × (read_predictable pmesi_asterisk id memory exclusive
          ≡ some (10, record exclusive { complementary_value = 0 }))
unfolding read_predictable asterisk_number mesi_asterisk_number read_mesi_event mesi_event
    event_number
read_predictable-same_number id memory t ts bytes bytes' inv reply exclusive s p v s' p' d h s'' p''
      v'' =
    (
      ap (λ o. and_then o (λ e. and_then (asterisk_number memory inv e) (λ n. some (n, inv))))
          (read_event-invalidation id inv s p v),
      ap (λ o. and_then o (λ e. and_then (asterisk_number memory reply e) (λ n. some (n, reply))))
            (read_event-own_data id reply bytes s' p')
          ∙ ap (λ o. and_then o (λ n. some (n, reply)))
              (ap (data_number memory 10) d ∙ data_number-other memory 10 t ts h),
      ap
          (λ o.
            and_then (and_then o (λ e. some (mesi_event e inv)))
              (λ (e, m'). and_then (mesi_asterisk_number memory m' e) (λ n. some (n, m'))))
          (read_event-invalidation id inv s p v),
      ap
            (λ o.
              and_then (and_then o (λ e. some (mesi_event e exclusive)))
                (λ (e, m'). and_then (mesi_asterisk_number memory m' e) (λ n. some (n, m'))))
            (read_event-own_data id exclusive bytes' s'' p'')
          ∙ ap (λ (e, m'). and_then (mesi_asterisk_number memory m' e) (λ n. some (n, m')))
              (mesi_event-exclusive exclusive v''),
    )
