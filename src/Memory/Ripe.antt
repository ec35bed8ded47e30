-- ===== src/Memory/Ripe.antt =====
-- MainMemoryController: which request the memory serves.
use octopus_simulator.Common.{
  ℕ, ◌+◌, ◌≤◌, ◌<◌, ◌≡◌, refl, ap, sym, subst, ◌⊎◌, inl, inr, Bool, true, false, Option, none, some,
  List, [], ◌∷◌, ◌++◌, leb, if◌then◌else◌, All, arith, Bool-cases, leb→le,
}
use octopus_simulator.Message.{Message}
use octopus_simulator.Queue.{
  ready, non_ready, Element, Buffer, scan, full_scan, get_first_ready, settle, is_gated, put_back,
}
use octopus_simulator.Memory.{ripeness}

-- The first request that has waited for the latency is taken out; if there is none, nothing changes.
abbrev pub ServesFirst : ℕ → ℕ → List Element → Option Message × List Element → Type 0
ServesFirst latency clk es r =
    ((r ≡ (none, es)) × All (λ e. clk < e.item.cycle + latency) es)
    ⊎ ((before : List Element) × (e : Element) × (after : List Element) × (es ≡ before ++ e ∷ after)
        × (r ≡ (some e.item, before ++ after))
        × (e.item.cycle + latency ≤ clk)
        × All (λ e. clk < e.item.cycle + latency) before)

abbrev waiting_for : Message → Element
waiting_for m = record { item = m; state = non_ready }

settle_lem :
    (b : Bool) (m : Message) (es : List Element) (rest : Option Message × List Element)
    → settle (if b then ready else non_ready) (waiting_for m) es rest
      ≡ (if b then (some m, es) else put_back (waiting_for m) rest)
unfolding settle
settle_lem true m es rest = refl
settle_lem false m es rest = refl

module _ (latency clk : ℕ) where
  rest_of : List Element → Message → List Element → Option Message × List Element
  rest_of older m es = scan (ripeness latency clk) (λ m. false) 0 (older ++ waiting_for m ∷ []) es

  scan_lem :
      (older es : List Element) (m : Message)
      → scan (ripeness latency clk) (λ m. false) 0 older (waiting_for m ∷ es) ≡ (
          if leb (m.cycle + latency) clk
          then (some m, es)
          else put_back (waiting_for m) (rest_of older m es))
  unfolding scan is_gated ripeness rest_of
  scan_lem older es m = settle_lem (leb (m.cycle + latency) clk) m es (rest_of older m es)

  cons-ServesFirst :
      (m : Message) (es : List Element) (r : Option Message × List Element)
      → clk < m.cycle + latency
      → ServesFirst latency clk es r
      → ServesFirst latency clk (waiting_for m ∷ es) (put_back (waiting_for m) r)
  cons-ServesFirst m es r l (inl (e, a)) = inl (ap (put_back (waiting_for m)) e, (l, a))
  cons-ServesFirst m es r l (inr (before, x, after, split, e, ripe, a)) = inr (
    waiting_for m ∷ before,
    x,
    after,
    ap (λ ys. waiting_for m ∷ ys) split,
    ap (put_back (waiting_for m)) e,
    ripe,
    (l, a),
  )

  scan-ServesFirst :
      (older es : List Element)
      → All (λ e. e.state ≡ non_ready) es
      → ServesFirst latency clk es (scan (ripeness latency clk) (λ m. false) 0 older es)
  unfolding rest_of
  scan-ServesFirst older [] h = inl (unfold scan in refl, tt)
  scan-ServesFirst older (e ∷ es) (h, hs) =
      subst
        (λ s. ServesFirst latency clk (record { item = e.item; state = s } ∷ es) (
          scan (ripeness latency clk) (λ m. false) 0 older
            (record { item = e.item; state = s } ∷ es)))
        (sym h)
        (subst (ServesFirst latency clk (waiting_for e.item ∷ es)) (sym (scan_lem older es e.item))
          (elim (Bool-cases (leb (e.item.cycle + latency) clk)) [
            | inl b ↦ rw b (inr ([], waiting_for e.item, es, refl, refl, leb→le _ _ b, tt))
            | inr b ↦ rw b (
                cons-ServesFirst e.item es _ (unripe e b)
                  (scan-ServesFirst (older ++ waiting_for e.item ∷ []) es hs))
          ]))
    where
      unripe :
          (e : Element) → leb (e.item.cycle + latency) clk ≡ false → clk < e.item.cycle + latency
      unripe e b = ground arith

-- A queue of waiting requests, without the order of lines, serves the first request that has waited for
-- the latency, takes only that one out, and serves none only if none has waited long enough.
pub get_first_ready-ServesFirst :
    (latency clk : ℕ) (b : Buffer)
    → b.line_mask ≡ 0
    → b.readiness_state_only ≡ false
    → All (λ e. e.state ≡ non_ready) b.elements
    → let r = get_first_ready (ripeness latency clk) (λ m. false) b in
      ServesFirst latency clk b.elements (r.1, r.0.elements)
unfolding get_first_ready full_scan
get_first_ready-ServesFirst latency clk b z s h =
    rw (s, z) (scan-ServesFirst latency clk [] b.elements h)
