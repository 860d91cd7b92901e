-- ===== src/Jobs/Pool/Running.antt =====
-- How many loops the pool runs.
use cobble_companion.Base.{
  ℕ, zero, suc, ◌+◌, ◌≤◌, ◌≡◌, refl, Bool, true, if◌then◌else◌, List, [], ◌∷◌, max, arith,
}
use cobble_companion.Jobs.Pool.{
  PoolState, top_up, nudge, start, begin_enqueue, settle_enqueue, end_loop, begin_close,
}

pub data Event : Type 0 where
  starts polls enqueues loop_ends closes : Event
  enqueue_settles : Bool → Event

unfoldable pub handle : ℕ → Event → PoolState → PoolState
handle n starts p = start n p
handle n polls p = if p.polling then nudge n p else p
handle n enqueues p = begin_enqueue p
handle n loop_ends p = end_loop p
handle n closes p = begin_close p
handle n (enqueue_settles ok) p = settle_enqueue n ok p

unfoldable pub handle_all : ℕ → List Event → PoolState → PoolState
handle_all n [] p = p
handle_all n (e ∷ es) p = handle_all n es (handle n e p)

-- The loop tops up to the concurrency, and its turns are enough.
top_up_lem :
    (fuel concurrency running : ℕ)
    → concurrency ≤ fuel + running
    → top_up fuel concurrency running ≡ max running concurrency
unfolding top_up
top_up_lem zero n r h = omega arith
top_up_lem (suc fuel) n r h = ground (arith, top_up_lem fuel n (suc r))

nudge_lem :
    (n : ℕ) (p : PoolState)
    → (nudge n p).running ≡ (if p.stopping then p.running else max p.running n)
unfolding nudge
nudge_lem n p = ground (arith, top_up_lem n n p.running)

nudge-stopping : (n : ℕ) (p : PoolState) → (nudge n p).stopping ≡ p.stopping
unfolding nudge
nudge-stopping n p = ground arith

handle_lem :
    (n : ℕ) (e : Event) (p : PoolState)
    → p.running ≤ n
    → ((handle n e p).running ≤ n)
      × (p.stopping ≡ true
          → ((handle n e p).stopping ≡ true) × ((handle n e p).running ≤ p.running))
unfolding handle start begin_enqueue settle_enqueue end_loop begin_close
handle_lem n starts p h = ground (
  arith,
  nudge_lem n (record p { polling = true }),
  nudge-stopping n (record p { polling = true }),
)
handle_lem n polls p h = ground (arith, nudge_lem n p, nudge-stopping n p)
handle_lem n enqueues p h = (h, λ s. (s, omega arith))
handle_lem n loop_ends p h = (omega arith, λ s. (s, omega arith))
handle_lem n closes p h = (h, λ s. (refl, omega arith))
handle_lem n (enqueue_settles ok) p h = ground (arith, nudge_lem n p, nudge-stopping n p)

-- From a pool that runs at most `n` loops, through any events, it runs at most `n` loops; and once it
-- is closed, it starts no loop any more.
pub handle_all-bounded :
    (n : ℕ) (es : List Event) (p : PoolState)
    → p.running ≤ n
    → ((handle_all n es p).running ≤ n)
      × (p.stopping ≡ true → (handle_all n es p).running ≤ p.running)
unfolding handle_all
handle_all-bounded n [] p h = (h, λ s. omega arith)
handle_all-bounded n (e ∷ es) p h =
    let (bound, still) = handle_lem n e p h in
    let (bound', still') = handle_all-bounded n es (handle n e p) bound in
    (bound', λ s. omega (arith, (still s).1, still' (still s).0))
