-- ===== src/Mesh/Latency.antt =====
-- MeshController::step: when a link delivers the message that it was granted.
use octopus_simulator.Common.{
  ℕ, zero, suc, ◌+◌, ◌<◌, ◌≡◌, refl, Option, none, some, List, ltb, ◌==◌, and_then, if_keeps, arith,
}
use octopus_simulator.Message.{Message}
use octopus_simulator.Arbiter.{Arbiter}
use octopus_simulator.Bus.Split.{elect}
use octopus_simulator.Mesh.{MeshInterface}
use octopus_simulator.Mesh.Link.{Link, State, Deliver, utilize, elected, link_buffers, link_step}

abbrev IsLate : ℕ → State → Type 0
IsLate cycle (l, is) = (l.latency ≡ 1) × (l.utilization_cycle < cycle)

-- The cycles of one link from `cycle` on.
pub link_cycles : Deliver → ℕ → ℕ → State → Option State
link_cycles deliver zero cycle s = some s
link_cycles deliver (suc n) cycle s =
    and_then (link_step deliver cycle s) (λ s'. link_cycles deliver n (suc cycle) s')

abbrev pub delivered : Deliver → Link → List MeshInterface → Option State
delivered deliver l is = and_then (deliver l is) (λ is'. some (l, is'))

link_step-waits :
    (deliver : Deliver) (cycle : ℕ) (l : Link) (is : List MeshInterface)
    → cycle < l.utilization_cycle
    → link_step deliver cycle (l, is) ≡ some (l, is)
unfolding link_step
link_step-waits deliver cycle l is h =
    if_keeps Goal (ltb l.utilization_cycle cycle) (λ e. absurd (ground arith))
      (λ _. if_keeps Goal (l.utilization_cycle == cycle) (λ e. absurd (ground arith)) (λ _. refl))
  where
    Goal : Option State → Type 0
    Goal o = o ≡ some (l, is)

link_step-delivers :
    (deliver : Deliver) (cycle : ℕ) (l : Link) (is : List MeshInterface)
    → l.utilization_cycle ≡ cycle
    → link_step deliver cycle (l, is) ≡ delivered deliver l is
unfolding link_step
link_step-delivers deliver cycle l is h =
    if_keeps Goal (ltb l.utilization_cycle cycle) (λ e. absurd (ground arith))
      (λ _. if_keeps Goal (l.utilization_cycle == cycle) (λ _. refl) (λ e. absurd (ground arith)))
  where
    Goal : Option State → Type 0
    Goal o = o ≡ delivered deliver l is

link_step-free :
    (deliver : Deliver) (cycle : ℕ) (l : Link) (is : List MeshInterface)
    → l.utilization_cycle < cycle
    → link_step deliver cycle (l, is)
      ≡ some (elected cycle (l, is) (elect l.arbiter_type l.arbiter cycle (link_buffers l is)))
unfolding link_step
link_step-free deliver cycle l is h =
    if_keeps Goal (ltb l.utilization_cycle cycle) (λ _. refl) (λ e. absurd (ground arith))
  where
    Goal : Option State → Type 0
    Goal o =
        o ≡ some (elected cycle (l, is) (elect l.arbiter_type l.arbiter cycle (link_buffers l is)))

and_then-some : (o : Option State) → and_then o some ≡ o
and_then-some none = refl
and_then-some (some s) = refl

link_cycles-at :
    (deliver : Deliver) (n cycle : ℕ) (l : Link) (is : List MeshInterface)
    → l.utilization_cycle ≡ cycle + n
    → link_cycles deliver (suc n) cycle (l, is) ≡ delivered deliver l is
unfolding link_cycles
link_cycles-at deliver zero cycle l is h =
    rw (link_step-delivers deliver cycle l is (omega arith))
      (and_then-some (delivered deliver l is))
link_cycles-at deliver (suc n) cycle l is h =
    rw (link_step-waits deliver cycle l is (omega arith))
      (link_cycles-at deliver n (suc cycle) l is (omega arith))

-- A link of a latency of `suc (suc n)` that is granted a message in a cycle does nothing for `n` cycles and
-- delivers the message in the next one, the last of its latency: if the delivery exits the run does,
-- and otherwise the interfaces are those that it leaves.
pub link_cycles-delivers :
    (deliver : Deliver) (n cycle : ℕ) (l : Link) (is : List MeshInterface) (m : Message)
    → l.latency ≡ suc (suc n)
    → link_cycles deliver (suc n) (suc cycle) (utilize l cycle m, is)
      ≡ and_then (deliver (utilize l cycle m) is) (λ is'. some (utilize l cycle m, is'))
unfolding utilize
link_cycles-delivers deliver n cycle l is m h =
    link_cycles-at deliver n (suc cycle) (utilize l cycle m) is (omega arith)

elected-IsLate :
    (cycle : ℕ) (l : Link) (is : List MeshInterface)
    (r : Arbiter × Option (Message × List (List Message)))
    → l.latency ≡ 1
    → l.utilization_cycle < cycle
    → IsLate (suc cycle) (elected cycle (l, is) r)
unfolding elected utilize
elected-IsLate cycle l is (a, none) h k = (h, omega (arith, k))
elected-IsLate cycle l is (a, some (m, rest)) h k = (h, omega (arith, h))

-- A link of a latency of 1 whose last grant came before the first of the cycles never delivers a message: over however many cycles, whatever is sent over it, the run is the same for any two
-- ways to deliver.
pub link_cycles-loses :
    (deliver deliver' : Deliver) (n cycle : ℕ) (l : Link) (is : List MeshInterface)
    → l.latency ≡ 1
    → l.utilization_cycle < cycle
    → link_cycles deliver n cycle (l, is) ≡ link_cycles deliver' n cycle (l, is)
unfolding link_cycles
link_cycles-loses deliver deliver' zero cycle l is h k = refl
link_cycles-loses deliver deliver' (suc n) cycle l is h k =
    let next = elected cycle (l, is) (elect l.arbiter_type l.arbiter cycle (link_buffers l is)) in
    let late =
      elected-IsLate cycle l is (elect l.arbiter_type l.arbiter cycle (link_buffers l is)) h k in
    rw (link_step-free deliver cycle l is k, link_step-free deliver' cycle l is k)
      (link_cycles-loses deliver deliver' n (suc cycle) next.0 next.1 late.0 late.1)
