-- ===== src/Mesh/Copies.antt =====
-- MeshInterface::pushMessage and NoCInterface::noc_pushMessage: which buffers a message is copied into.
use octopus_simulator.Common.{
  ℕ, ◌≡◌, refl, sym, ap, ◌∙◌, Bool, true, false, ◌&&◌, ◌||◌, not, Option, some, List, [], ◌∷◌, ◌++◌,
  length, ltb, ◌==◌, if◌then◌else◌, is_some, Bool-cases, ==→eq, subst, inl, inr, arith,
}
use mathlib.Core.List.{append_assoc, append-nil}
use octopus_simulator.Message.{Message}
use octopus_simulator.Mesh.{MeshInterface, place_copy, push_copies, push_to}
use octopus_simulator.Mesh.Noc.{is_among}

-- The copies for the destinations behind the link `l`, in order.
abbrev pub copies : (ℕ → ℕ) → Message → ℕ → List ℕ → List Message
copies route m l [] = []
copies route m l (to ∷ tos) =
    let rest = copies route m l tos in
    if l == route to then record m { to = to ∷ [] } ∷ rest else rest

-- Each link's buffer with its copies behind it.
abbrev pub gather : (ℕ → ℕ) → Message → List ℕ → List ℕ → List (List Message) → List (List Message)
gather route m [] tos bs = bs
gather route m (l ∷ ls) tos [] = []
gather route m (l ∷ ls) tos (b ∷ bs) = (b ++ copies route m l tos) ∷ gather route m ls tos bs

abbrev pub LinksDiffer : List ℕ → Type 0
LinksDiffer [] = Unit
LinksDiffer (l ∷ ls) = (is_among l ls ≡ false) × LinksDiffer ls

gather-nil :
    (route : ℕ → ℕ) (m : Message) (ls : List ℕ) (bs : List (List Message))
    → gather route m ls [] bs ≡ bs
gather-nil route m [] bs = refl
gather-nil route m (l ∷ ls) [] = refl
gather-nil route m (l ∷ ls) (b ∷ bs) =
    ap (λ c. c ∷ gather route m ls [] bs) (append-nil b)
    ∙ ap (λ cs. b ∷ cs) (gather-nil route m ls bs)

gather-absent :
    (route : ℕ → ℕ) (m : Message) (ls : List ℕ) (to : ℕ) (tos : List ℕ) (bs : List (List Message))
    → is_among (route to) ls ≡ false
    → gather route m ls (to ∷ tos) bs ≡ gather route m ls tos bs
unfolding is_among
gather-absent route m [] to tos bs h = refl
gather-absent route m (l ∷ ls) to tos [] h = refl
gather-absent route m (l ∷ ls) to tos (b ∷ bs) h = elim (Bool-cases (l == route to)) [
  | inl e ↦ absurd (ground arith)
  | inr e ↦ rw e (
      ap (λ cs. (b ++ copies route m l tos) ∷ cs)
        (gather-absent route m ls to tos bs
          (subst (λ x. (x || is_among (route to) ls) ≡ false) e h)))
]

place_copy-gather :
    (route : ℕ → ℕ) (m : Message) (ls : List ℕ) (to : ℕ) (tos : List ℕ) (bs : List (List Message))
    → LinksDiffer ls
    → gather route m ls tos (place_copy ls bs (route to) (record m { to = to ∷ [] }))
      ≡ gather route m ls (to ∷ tos) bs
unfolding place_copy
place_copy-gather route m [] to tos bs d = refl
place_copy-gather route m (l ∷ ls) to tos [] d = refl
place_copy-gather route m (l ∷ ls) to tos (b ∷ bs) d = elim (Bool-cases (l == route to)) [
  | inl e ↦ rw e (
      ap (λ c. c ∷ gather route m ls tos bs)
        (append_assoc b (record m { to = to ∷ [] } ∷ []) (copies route m l tos))
      ∙ ap (λ cs. (b ++ record m { to = to ∷ [] } ∷ copies route m l tos) ∷ cs)
          (sym (
            gather-absent route m ls to tos bs
              (subst (λ k. is_among k ls ≡ false) (==→eq l (route to) e) d.0))))
  | inr e ↦
      rw e
        (ap (λ cs. (b ++ copies route m l tos) ∷ cs) (place_copy-gather route m ls to tos bs d.1))
]

push_copies-gather :
    (route : ℕ → ℕ) (m : Message) (ls tos : List ℕ) (bs : List (List Message))
    → LinksDiffer ls
    → push_copies route ls tos m bs ≡ gather route m ls tos bs
unfolding push_copies
push_copies-gather route m ls [] bs d = sym (gather-nil route m ls bs)
push_copies-gather route m ls (to ∷ tos) bs d =
    push_copies-gather route m ls tos (place_copy ls bs (route to) (record m { to = to ∷ [] })) d
    ∙ place_copy-gather route m ls to tos bs d

-- The interface with the copies in its buffers for requests or, for a message with data, for responses.
abbrev pub gathered : (ℕ → ℕ) → MeshInterface → Message → List ℕ → MeshInterface
gathered route i m tos =
    if is_some m.payload
    then record i { tx_data = gather route m i.link_ids tos i.tx_data }
    else record i { tx_request = gather route m i.link_ids tos i.tx_request }

abbrev pub accepted : MeshInterface → Option (MeshInterface × Bool)
accepted i = some (i, true)

abbrev pub refused : MeshInterface → Option (MeshInterface × Bool)
refused i = some (i, false)

-- The two tests of a push, with the kind of the message read first.
by_kind :
    (i j k : MeshInterface) (has_data fits : Bool)
    → (if not has_data && fits
        then accepted j
        else if has_data && fits
        then accepted k
        else refused i)
      ≡ (if fits then accepted (if has_data then k else j) else refused i)
by_kind i j k true true = refl
by_kind i j k true false = refl
by_kind i j k false true = refl
by_kind i j k false false = refl

-- A push of a message, at a node whose links differ and that has a request buffer and a data buffer for
-- each: if the node has fewer links than a buffer's size, the push succeeds however full the buffers
-- are, and each link's buffer, the data buffer for a message with data and the request buffer for one
-- without, gets one copy for each destination behind it, in order; otherwise it is refused even if all
-- the buffers are empty.
pub push_to-gather :
    (route : ℕ → ℕ) (i : MeshInterface) (m : Message) (t : ℕ) (ts : List ℕ)
    → LinksDiffer i.link_ids
    → length i.tx_request ≡ length i.link_ids
    → length i.tx_data ≡ length i.link_ids
    → push_to route i m (t ∷ ts) ≡ (
        if ltb (length i.link_ids) i.max_size
        then accepted (gathered route i m (t ∷ ts))
        else refused i)
unfolding push_to
push_to-gather route i m t ts d n k =
    rw
      (
        n,
        k,
        push_copies-gather route m i.link_ids (t ∷ ts) i.tx_request d,
        push_copies-gather route m i.link_ids (t ∷ ts) i.tx_data d,
      )
      (by_kind i (record i { tx_request = gather route m i.link_ids (t ∷ ts) i.tx_request })
        (record i { tx_data = gather route m i.link_ids (t ∷ ts) i.tx_data }) (is_some m.payload)
        (ltb (length i.link_ids) i.max_size))
