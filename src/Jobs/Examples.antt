-- ===== src/Jobs/Examples.antt =====
-- Tests of the job queue and its processor on concrete tables, and instances of their theorems.
use cobble_companion.Base.{
  ℕ, ◌+◌, ◌≡◌, refl, true, false, none, some, List, [], ◌∷◌, codes, exists_where, update_where,
  select_where, count_where, text_eq, arith, ◌==◌, if◌then◌else◌,
}
use cobble_companion.Jobs.Tables.{
  Db, ClaimRow, ClaimedCompanion, consolidate, motivation, is_pending, type_text,
}
use cobble_companion.Jobs.Queue.{
  enqueue, pending_under, try_claim, claim_next_companion, candidates, claim_still_held, mark_done,
  mark_failed, release_claim, is_due, claimable, groups, add_to_groups, sort_by_time,
  insert_by_time,
}
use cobble_companion.Jobs.Queue.Trace.{
  Statement, claims, renews, releases, enqueues, run, step, empty_db,
}
use cobble_companion.Jobs.Queue.Coalescing.{
  PendingUnique, Collapsed, run-PendingUnique, enqueue_lem,
}
use cobble_companion.Jobs.Queue.Fencing.{
  run-exclusive, reclaim_fences, release_revives_stale_claim, own_release_frees_reclaim,
}
use cobble_companion.Jobs.Queue.Claiming.{
  Won, Oldest, claim_next_companion-Won, claim_next_companion_progress,
}
use cobble_companion.Jobs.Processor.{companion_request}

-- Two companions with work, and a trigger that comes twice.
abbrev requests : List (ℕ × Statement)
requests =
    (10, enqueues (companion_request consolidate 1) 10)
    ∷ (12, enqueues (companion_request motivation 2) 12)
    ∷ (14, enqueues (companion_request consolidate 1) 14)
    ∷ []

abbrev busy : Db
busy = run requests empty_db

busy-coalesced : count_where (λ r. is_pending r.status) busy.jobs ≡ 2
unfolding count_where is_pending run step enqueue exists_where pending_under text_eq update_where
    empty_db companion_request type_text
busy-coalesced = refl

busy-candidates : candidates 20 busy ≡ 1 ∷ 2 ∷ []
unfolding candidates run step enqueue exists_where pending_under text_eq update_where empty_db
    companion_request type_text is_pending is_due claimable groups add_to_groups sort_by_time
    insert_by_time select_where
busy-candidates = refl

empty-PendingUnique : PendingUnique empty_db
unfolding empty_db count_where
empty-PendingUnique c k = omega arith

run-PendingUnique_example : PendingUnique (run requests empty_db)
run-PendingUnique_example = run-PendingUnique requests empty_db empty-PendingUnique

enqueue_lem_example :
    Collapsed
      (companion_request consolidate 1)
      16
      busy.jobs
      (enqueue (companion_request consolidate 1) 16 16 busy).jobs
enqueue_lem_example =
    enqueue_lem (companion_request consolidate 1) 16 16 busy run-PendingUnique_example

-- Companion 1 under the claim of node 7.
abbrev held_row : ClaimRow
held_row = record { owner = 7; generation = 1; claimed_until = 50 }

abbrev held_db : Db
held_db = record { jobs = []; claims = λ c. if c == 1 then some held_row else none; next_id = 0 }

run-exclusive_example :
    ((run ((30, claims 1 8 100) ∷ (40, releases 1 8) ∷ []) held_db).claims 1 ≡ some held_row)
    × (try_claim 1 8 100 45 (run ((30, claims 1 8 100) ∷ (40, releases 1 8) ∷ []) held_db)
        ≡ (none, run ((30, claims 1 8 100) ∷ (40, releases 1 8) ∷ []) held_db))
run-exclusive_example =
    run-exclusive 1 ((30, claims 1 8 100) ∷ (40, releases 1 8) ∷ []) held_db held_row 8 100 45 refl
      ((omega arith, refl), ((omega arith, refl), tt)) (omega arith)

abbrev claim_7 : ClaimedCompanion
claim_7 = record { companion_id = 1; owner = 7; generation = 1 }

reclaim_fences_example :
    let db' = run ((90, renews 1 8 100) ∷ []) (try_claim 1 8 100 60 held_db).1 in
    (mark_done 3 claim_7 db' ≡ (false, db'))
    × (mark_failed 3 (codes "x") claim_7 db' ≡ (false, db'))
unfolding claim_still_held try_claim
reclaim_fences_example =
    reclaim_fences claim_7 held_db 8 100 60 ((90, renews 1 8 100) ∷ []) 3 (codes "x") refl refl
      (refl, tt)

release_revives_stale_claim_example :
    claim_still_held claim_7
      (try_claim 1 7 30 90
        (release_claim 1 8 (try_claim 1 8 30 60 (try_claim 1 7 30 10 empty_db).1).1)).1
    ≡ true
unfolding empty_db
release_revives_stale_claim_example =
    (release_revives_stale_claim 1 7 8 30 10 60 90 empty_db refl (omega arith)).2

abbrev claim_1 : ClaimedCompanion
claim_1 = record { companion_id = 1; owner = 9; generation = 1 }

claim_next_companion-Won_example :
    Won
      (1 ∷ 2 ∷ [])
      9
      30
      (λ _. 20)
      (claim_next_companion 9 30 20 (λ _. 20) (λ _ d. d) busy).1
      claim_1
unfolding claim_next_companion try_claim candidates run step enqueue exists_where pending_under
    text_eq update_where empty_db companion_request type_text is_pending is_due claimable groups
    add_to_groups sort_by_time insert_by_time select_where
claim_next_companion-Won_example =
    claim_next_companion-Won 9 30 20 (λ _. 20) (λ _ d. d) busy claim_1 refl

claim_next_companion_progress_example :
    (claim : ClaimedCompanion) × ((claim_next_companion 9 30 20 (λ _. 20) (λ _ d. d) busy).0
      ≡ some claim)
    × Oldest 20 busy claim.companion_id
unfolding run step enqueue exists_where pending_under text_eq update_where empty_db
    companion_request type_text is_pending is_due claimable select_where
claim_next_companion_progress_example = claim_next_companion_progress 9 30 20 busy (λ e. cc)

own_release_frees_reclaim_example :
    let second = try_claim 1 7 100 60 held_db in
    let freed = release_claim 1 7 second.1 in
    (second.0 ≡ some (held_row.generation + 1))
    × (claim_still_held
          (record { companion_id = 1; owner = 7; generation = held_row.generation + 1 })
          freed
        ≡ false)
    × ((try_claim 1 8 100 70 freed).0 ≡ some 1)
own_release_frees_reclaim_example =
    own_release_frees_reclaim 1 7 8 100 60 70 held_db held_row refl refl (omega arith)
