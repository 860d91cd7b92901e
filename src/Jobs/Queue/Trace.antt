-- ===== src/Jobs/Queue/Trace.antt =====
-- The interleavings of the queue's statements: each entry is one statement by some node, at the
-- database's clock.
use cobble_companion.Base.{ℕ, none, List, [], ◌∷◌, Text}
use cobble_companion.Jobs.Tables.{Db, ClaimedCompanion, EnqueueParams}
use cobble_companion.Jobs.Queue.{
  enqueue, try_claim, mark_done, mark_failed, renew_claim, release_claim,
}

pub data Statement : Type 0 where
  enqueues : EnqueueParams → ℕ → Statement
  claims : ℕ → ℕ → ℕ → Statement
  marks_done : ℕ → ClaimedCompanion → Statement
  marks_failed : ℕ → Text → ClaimedCompanion → Statement
  renews : ℕ → ℕ → ℕ → Statement
  releases : ℕ → ℕ → Statement

unfoldable pub step : ℕ → Statement → Db → Db
step now (enqueues p app_now) db = enqueue p app_now now db
step now (claims companion owner lease_ms) db = (try_claim companion owner lease_ms now db).1
step now (marks_done job claim) db = (mark_done job claim db).1
step now (marks_failed job error claim) db = (mark_failed job error claim db).1
step now (renews companion owner lease_ms) db = (renew_claim companion owner lease_ms now db).1
step now (releases companion owner) db = release_claim companion owner db

unfoldable pub run : List (ℕ × Statement) → Db → Db
run [] db = db
run ((now, s) ∷ rest) db = run rest (step now s db)

unfoldable pub empty_db : Db
empty_db = record { jobs = []; claims = λ _. none; next_id = 0 }
