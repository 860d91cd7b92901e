-- ===== src/Embodiment/Examples.antt =====
-- Tests of the rooms on concrete connections, and instances of their theorems.
use cobble_companion.Base.{
  ℕ, ◌≡◌, refl, true, false, none, some, List, [], ◌∷◌, ◌==◌, arith, if◌then◌else◌,
}
use cobble_companion.Embodiment.{
  EmbodimentRow, Rooms, EmbodimentClaim, ClaimParams, claim, claimed_row, first_claim, take_over,
  yields_to, write_claim, claim_of, under, holds, renew, release, record_heartbeat, record_activity,
}
use cobble_companion.Embodiment.Holder.{
  Statement, claims, renews, beats, run, superseded_stays_out, release_revives_claim,
}
use cobble_companion.Embodiment.Newest.{claim_all, newest_of, newest_wins}

abbrev params : ℕ → ClaimParams
params connection = record { companion_id = 4; connection_id = connection; node = 1; ttl_ms = 1000 }

abbrev no_rooms : Rooms
no_rooms = λ c. none

abbrev first_room : Rooms
first_room c = if c == 4 then some (first_claim (params 10) 50) else none

abbrev later_claim : EmbodimentClaim
later_claim = record { companion_id = 4; connection_id = 12; claim_seq = 2 }

abbrev later_statements : List (ℕ × Statement)
later_statements = (70, renews 4 10 1) ∷ (75, claims (params 30)) ∷ (80, beats 4 10 1 false) ∷ []

superseded_stays_out_example :
    let rooms' = run later_statements (claim (params 12) 60 first_room).1 in
    (renew 4 10 1 90 rooms' ≡ (false, rooms'))
    × (release 4 10 1 rooms' ≡ rooms')
    × (record_heartbeat 4 10 1 true rooms' ≡ rooms')
    × (record_activity 4 10 1 90 rooms' ≡ rooms')
unfolding first_claim holds under claim claimed_row take_over yields_to write_claim claim_of
superseded_stays_out_example =
    superseded_stays_out (params 12) 60 10 1 first_room later_claim later_statements 90 true refl
      refl (refl, (refl, (refl, tt)))

newest_wins_example :
    (r : EmbodimentRow) × (claim_all
        ((60, params 10) ∷ (40, params 30) ∷ (70, params 20) ∷ [])
        no_rooms
        4
      ≡ some r)
    × (r.connection_id ≡ newest_of ((60, params 10) ∷ (40, params 30) ∷ (70, params 20) ∷ []))
newest_wins_example =
    newest_wins 4 1000 30 60 (params 10) ((40, params 30) ∷ (70, params 20) ∷ []) no_rooms refl (
      (refl, refl, omega arith, omega arith),
      ((refl, refl, omega arith, omega arith), ((refl, refl, omega arith, omega arith), tt)),
    )

release_revives_claim_example :
    let with_b = (claim (params 12) 60 (claim (params 10) 50 no_rooms).1).1 in
    (holds 4 10 1 with_b ≡ false)
    × (holds 4 10 1 (claim (params 10) 80 (release 4 12 2 with_b)).1 ≡ true)
release_revives_claim_example =
    release_revives_claim 4 10 12 1 1000 50 60 80 no_rooms refl (omega arith)
