-- ===== src/Jobs/Pool.antt =====
-- packages/core/src/jobs/job-processor.ts: one ephemeral loop of the pool, which claims a companion,
-- drains it and goes on until nothing is claimable; and the pool, which keeps loops running.
pub mod Running
pub mod Frame
pub mod Draining
pub mod Examples
use cobble_companion.Base.{
  ℕ, zero, suc, ◌-◌, ◌&&◌, ◌==◌, ltb, Bool, true, false, Option, none, some, List, [], ◌∷◌,
  if◌then◌else◌,
}
use cobble_companion.Jobs.Tables.{Db, ClaimedCompanion}
use cobble_companion.Jobs.Queue.{claim_next_companion}
use cobble_companion.Jobs.Processor.{Handlers, Round, drain}

-- What the surroundings decide in one turn of the loop: the signal to stop, whether the claim throws,
-- the clocks and the other nodes during the claim, and the rounds of the drain that may follow.
pub record Visit : Type 0 where
  pub stopping : Bool
  pub claim_throws : Bool
  pub now : ℕ
  pub clock : ℕ → ℕ
  pub others : ℕ → Db → Db
  pub rounds : List Round
  pub released : Bool

-- The second component says whether the loop has ended.
unfoldable pub drain_loop : Handlers → ℕ → ℕ → List Visit → Db → Db × Bool
drain_loop handlers owner lease_ms [] db = (db, false)
drain_loop handlers owner lease_ms (v ∷ vs) db =
    if v.stopping
    then (db, true)
    else if v.claim_throws
    then (db, true)
    else let (claimed, db') = claim_next_companion owner lease_ms v.now v.clock v.others db in
      elim claimed [
        | none ↦ (db', true)
        | some claim ↦
            let (db'', ended) = drain handlers claim lease_ms v.released v.rounds db' in
            let rest = drain_loop handlers owner lease_ms vs db'' in
            if ended then rest else (db'', false)
      ]

-- The pool itself: how many loops and enqueues are on their way, and its two flags.
pub record PoolState : Type 0 where
  pub running : ℕ
  pub pending_enqueues : ℕ
  pub stopping : Bool
  pub polling : Bool

unfoldable pub new_pool : PoolState
new_pool = record { running = 0; pending_enqueues = 0; stopping = false; polling = false }

-- `while (running.size < concurrency)`, with as many turns as the concurrency allows.
unfoldable pub top_up : ℕ → ℕ → ℕ → ℕ
top_up zero concurrency running = running
top_up (suc fuel) concurrency running =
    let more = top_up fuel concurrency (suc running) in
    if ltb running concurrency then more else running

unfoldable pub nudge : ℕ → PoolState → PoolState
unfolding top_up
nudge concurrency p =
    if p.stopping then p else record p { running = top_up concurrency concurrency p.running }

unfoldable pub start : ℕ → PoolState → PoolState
unfolding nudge
start concurrency p = if p.polling then p else nudge concurrency (record p { polling = true })

unfoldable pub begin_enqueue : PoolState → PoolState
begin_enqueue p = record p { pending_enqueues = suc p.pending_enqueues }

-- An enqueue settles, and nudges where it succeeded.
unfoldable pub settle_enqueue : ℕ → Bool → PoolState → PoolState
unfolding nudge
settle_enqueue concurrency ok p =
    let p' = if ok then nudge concurrency p else p in
    record p' { pending_enqueues = p'.pending_enqueues - 1 }

-- A loop has ended.
unfoldable pub end_loop : PoolState → PoolState
end_loop p = record p { running = p.running - 1 }

-- The first part of `close`, before it waits.
unfoldable pub begin_close : PoolState → PoolState
begin_close p = record p { stopping = true; polling = false }

-- What `whenIdle` waits for.
unfoldable pub is_idle : PoolState → Bool
is_idle p = p.pending_enqueues == 0 && p.running == 0
