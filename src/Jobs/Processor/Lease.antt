-- ===== src/Jobs/Processor/Lease.antt =====
-- The heartbeat ends a drain before its lease can run out.
use cobble_companion.Base.{ℕ, ◌+◌, ◌≤◌, ◌<◌, ◌≡◌, ◌⊎◌, true, false, arith}
use cobble_companion.Jobs.Tables.{held, lost, LossReason}
use cobble_companion.Jobs.Processor.{
  Heartbeat, started, beat, renewed, renewal_error, renewed_between,
}

-- A drain with what its heartbeat does not see: when the last beat came, and the `claimed_until`
-- that the database holds for it.
pub record Watch : Type 0 where
  pub heart : Heartbeat
  pub last_beat : ℕ
  pub claimed_until : ℕ

-- What happens to a watch. A renewal that is granted was made at the database's time `at` and its
-- answer is read at `now`, at most `delay` later.
pub data Event (lease_ms heartbeat_ms delay : ℕ) (w : Watch) : Watch → Type 0 where
  beats :
      (now : ℕ)
      → now ≤ w.last_beat + heartbeat_ms
      → Event lease_ms heartbeat_ms delay w
          (record w { heart = beat lease_ms heartbeat_ms now w.heart; last_beat = now })
  granted :
      (at now : ℕ)
      → w.heart.last_renewed_at ≤ now
      → now ≤ at + delay
      → Event lease_ms heartbeat_ms delay w
          (record w { heart = renewed held now w.heart; claimed_until = at + lease_ms })
  granted_between :
      (at now : ℕ)
      → w.heart.last_renewed_at ≤ now
      → now ≤ at + delay
      → Event lease_ms heartbeat_ms delay w
          (record w { heart = renewed_between now w.heart; claimed_until = at + lease_ms })
  refused :
      (reason : LossReason) (now : ℕ)
      → Event lease_ms heartbeat_ms delay w (record w { heart = renewed (lost reason) now w.heart })
  errs : Event lease_ms heartbeat_ms delay w (record w { heart = renewal_error w.heart })

pub data Events (lease_ms heartbeat_ms delay : ℕ) (w : Watch) : Watch → Type 0 where
  here : Events lease_ms heartbeat_ms delay w w
  next :
      {v u : Watch}
      → Events lease_ms heartbeat_ms delay w v
      → Event lease_ms heartbeat_ms delay v u
      → Events lease_ms heartbeat_ms delay w u

-- The claim was made at the database's time `at`, and the drain began at `now`.
abbrev pub watch_from : ℕ → ℕ → ℕ → Watch
watch_from lease_ms at now = record {
  heart = started now;
  last_beat = now;
  claimed_until = at + lease_ms;
}

record Inv (lease_ms heartbeat_ms delay : ℕ) (w : Watch) : Type 0 where
  pub known : w.heart.last_renewed_at + lease_ms ≤ w.claimed_until + delay
  pub guarded :
      (w.heart.aborted ≡ true) ⊎ (w.last_beat + heartbeat_ms < w.heart.last_renewed_at + lease_ms)

Event-Inv :
    {lease_ms heartbeat_ms delay : ℕ} {w u : Watch}
    → Event lease_ms heartbeat_ms delay w u
    → Inv lease_ms heartbeat_ms delay w
    → Inv lease_ms heartbeat_ms delay u
unfolding beat renewed renewal_error renewed_between
Event-Inv (beats now soon) v = ground arith
Event-Inv (granted at now later quick) v = ground arith
Event-Inv (granted_between at now later quick) v = ground arith
Event-Inv (refused reason now) v = ground arith
Event-Inv errs v = ground arith

Events-Inv :
    {lease_ms heartbeat_ms delay : ℕ} {w u : Watch}
    → Events lease_ms heartbeat_ms delay w u
    → Inv lease_ms heartbeat_ms delay w
    → Inv lease_ms heartbeat_ms delay u
Events-Inv here v = v
Events-Inv (next es e) v = Event-Inv e (Events-Inv es v)

-- However renewals succeed, fail, or hang: as long as a drain is not aborted, its next beat is due
-- before the lease that the database holds for it runs out, up to the delay of one answer. The
-- heartbeat is shorter than the lease, a beat comes at most `heartbeat_ms` after the last, and
-- answers are read at most `delay` after the database gave them.
pub beat_before_expiry :
    (lease_ms heartbeat_ms delay at now : ℕ) (u : Watch)
    → heartbeat_ms < lease_ms
    → now ≤ at + delay
    → Events lease_ms heartbeat_ms delay (watch_from lease_ms at now) u
    → u.heart.aborted ≡ false
    → u.last_beat + heartbeat_ms < u.claimed_until + delay
unfolding started
beat_before_expiry lease_ms heartbeat_ms delay at now u short quick es alive =
    ground (arith, Events-Inv es (record { known = ground arith; guarded = ground arith }))
