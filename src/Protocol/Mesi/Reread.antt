-- ===== src/Protocol/Mesi/Reread.antt =====
-- MESIProtocol: what a second reading of a message gives.
use octopus_simulator.Common.{
  ℕ, ◌≡◌, ap, sym, ◌∙◌, Option, none, some, ◌==◌, if_keeps, Option-cases, inl, inr, subst, and_then,
  arith,
}
use octopus_simulator.Message.{Message, Source, lower_interconnect, upper_interconnect, self}
use octopus_simulator.Protocol.Msi.{EventId, own_data, read_event, event_from, bus_event}
use octopus_simulator.Protocol.Mesi.{
  MesiEvent, plain, own_data_exclusive, mesi_event, read_mesi_event,
}

abbrev pub reread : MesiEvent → MesiEvent
reread own_data_exclusive = plain own_data
reread (plain e) = plain e

-- A message that carries data from the bus is own data whatever its request type.
event_from-own_data :
    (id : ℕ) (m : Message) (s : Source)
    → event_from id m s ≡ some own_data
    → event_from id (record m { complementary_value = 0 }) s ≡ some own_data
unfolding event_from bus_event
event_from-own_data id m lower_interconnect h = absurd (ground arith)
event_from-own_data id m self h = absurd (ground arith)
event_from-own_data id m upper_interconnect h = ground arith

mesi_event-own_data :
    (id : ℕ) (m : Message)
    → read_event id m ≡ some own_data
    → read_mesi_event id (mesi_event own_data m).1
      ≡ some (reread (mesi_event own_data m).0, (mesi_event own_data m).1)
unfolding read_mesi_event mesi_event read_event
mesi_event-own_data id m h =
    if_keeps (λ (p : MesiEvent × Message). read_mesi_event id p.1 ≡ some (reread p.0, p.1))
      (m.complementary_value == 2)
      (λ e.
        ap (λ o. and_then o (λ x. some (mesi_event x (record m { complementary_value = 0 }))))
          (event_from-own_data id m m.source h))
      (λ e. ap (λ o. and_then o (λ x. some (mesi_event x m))) h ∙ ground arith)

mesi_event-plain :
    (id : ℕ) (m : Message) (e : EventId)
    → read_event id m ≡ some e
    → read_mesi_event id (mesi_event e m).1 ≡ some (reread (mesi_event e m).0, (mesi_event e m).1)
unfolding read_mesi_event mesi_event
mesi_event-plain id m own_data h = mesi_event-own_data id m h
mesi_event-plain id m e h = ap (λ o. and_then o (λ x. some (mesi_event x m))) h

abbrev Rereads : ℕ → Option (MesiEvent × Message) → Type 0
Rereads id none = Unit
Rereads id (some p) = read_mesi_event id p.1 ≡ some (reread p.0, p.1)

read_mesi_event-Rereads : (id : ℕ) (m : Message) → Rereads id (read_mesi_event id m)
unfolding read_mesi_event
read_mesi_event-Rereads id m = elim (Option-cases (read_event id m)) [
  | inl e ↦ subst (λ o. Rereads id (and_then o (λ x. some (mesi_event x m)))) (sym e) tt
  | inr (x, e) ↦
      subst (λ o. Rereads id (and_then o (λ y. some (mesi_event y m)))) (sym e)
        (mesi_event-plain id m x e)
]

-- A message that `readEvent` has read, as `getRequestState` does before the message is processed, reads as
-- the same event again and stays as it is, except that exclusive data read as plain own data.
pub read_mesi_event-reread :
    (id : ℕ) (m : Message) (e : MesiEvent) (m' : Message)
    → read_mesi_event id m ≡ some (e, m')
    → read_mesi_event id m' ≡ some (reread e, m')
read_mesi_event-reread id m e m' h = subst (Rereads id) h (read_mesi_event-Rereads id m)
