-- ===== src/Embodiment/Holder.antt =====
-- Superseded connections: what is left of their claims.
use cobble_companion.Base.{
  ℕ, ◌≤◌, ◌<◌, ◌≡◌, refl, Bool, true, false, Option, none, some, List, [], ◌∷◌, ◌==◌, All, put,
  arith, ==_self,
}
use cobble_companion.Embodiment.{
  EmbodimentRow, Rooms, EmbodimentClaim, ClaimParams, first_claim, take_over, yields_to,
  claimed_row, write_claim, claim, under, holds, fenced_write, renew, release, record_heartbeat,
  record_activity,
}

-- A statement of some connection.
pub data Statement : Type 0 where
  claims : ClaimParams → Statement
  renews : ℕ → ℕ → ℕ → Statement
  releases : ℕ → ℕ → ℕ → Statement
  beats : ℕ → ℕ → ℕ → Bool → Statement
  acts : ℕ → ℕ → ℕ → Statement

unfoldable pub step : ℕ → Statement → Rooms → Rooms
step now (claims p) rooms = (claim p now rooms).1
step now (renews companion connection seq) rooms = (renew companion connection seq now rooms).1
step now (releases companion connection seq) rooms = release companion connection seq rooms
step now (beats companion connection seq tab_visible) rooms =
    record_heartbeat companion connection seq tab_visible rooms
step now (acts companion connection seq) rooms = record_activity companion connection seq now rooms

unfoldable pub run : List (ℕ × Statement) → Rooms → Rooms
run [] rooms = rooms
run ((now, s) ∷ ss) rooms = run ss (step now s rooms)

-- A release in this room.
abbrev pub frees : ℕ → Statement → Bool
frees c (releases d connection seq) = d == c
frees c _ = false

-- The room is held under a later claim.
abbrev pub Past : ℕ → ℕ → Rooms → Type 0
Past c seq rooms = (r : EmbodimentRow) × (rooms c ≡ some r) × (seq < r.claim_seq)

held : Option EmbodimentRow → ℕ
held none = 0
held (some r) = r.claim_seq

step-held :
    (c now : ℕ) (s : Statement) (rooms : Rooms)
    → frees c s ≡ false
    → held (rooms c) ≤ held (step now s rooms c)
unfolding step claim claimed_row write_claim first_claim take_over renew release record_heartbeat
    record_activity fenced_write put held
step-held c now (claims p) rooms q = ground arith
step-held c now (renews d o seq) rooms q = ground arith
step-held c now (releases d o seq) rooms q = ground arith
step-held c now (beats d o seq v) rooms q = ground arith
step-held c now (acts d o seq) rooms q = ground arith

run-held :
    (c : ℕ) (ss : List (ℕ × Statement)) (rooms : Rooms)
    → All (λ (e : ℕ × Statement). frees c e.1 ≡ false) ss
    → held (rooms c) ≤ held (run ss rooms c)
unfolding run
run-held c [] rooms q = omega arith
run-held c ((t, s) ∷ ss) rooms q =
    omega (arith, step-held c t s rooms q.0, run-held c ss (step t s rooms) q.1)

past_fenced :
    (c connection seq : ℕ) (rooms : Rooms)
    → seq < held (rooms c)
    → holds c connection seq rooms ≡ false
unfolding holds under held
past_fenced c connection seq rooms h = ground arith

claim-held :
    (p : ClaimParams) (now connection seq : ℕ) (rooms : Rooms) (won : EmbodimentClaim)
    → holds p.companion_id connection seq rooms ≡ true
    → (claim p now rooms).0 ≡ some won
    → seq < held ((claim p now rooms).1 p.companion_id)
unfolding holds under claim claimed_row write_claim take_over put held
claim-held p now connection seq rooms won h e = ground arith

-- Once a claim that held is superseded by the claim of any connection, the old one no longer holds,
-- and its renewal, its late release, its heartbeat and its activity change nothing, through any
-- further statements of any connections but a release in that room.
pub superseded_stays_out :
    (p : ClaimParams) (now connection seq : ℕ) (rooms : Rooms) (won : EmbodimentClaim)
    → (ss : List (ℕ × Statement)) (later : ℕ) (tab_visible : Bool)
    → holds p.companion_id connection seq rooms ≡ true
    → (claim p now rooms).0 ≡ some won
    → All (λ (e : ℕ × Statement). frees p.companion_id e.1 ≡ false) ss
    → let rooms' = run ss (claim p now rooms).1 in
      (renew p.companion_id connection seq later rooms' ≡ (false, rooms'))
      × (release p.companion_id connection seq rooms' ≡ rooms')
      × (record_heartbeat p.companion_id connection seq tab_visible rooms' ≡ rooms')
      × (record_activity p.companion_id connection seq later rooms' ≡ rooms')
unfolding renew release record_heartbeat record_activity fenced_write
superseded_stays_out p now connection seq rooms won ss later tab_visible h e q =
    let out = past_fenced p.companion_id connection seq (run ss (claim p now rooms).1) (
      omega (
        arith,
        claim-held p now connection seq rooms won h e,
        run-held p.companion_id ss (claim p now rooms).1 q,
      )) in
    rw out (refl, refl, refl, refl)

-- The claim number starts again at 1 when a release has deleted the row: connection `a` takes a free
-- room, the newer `b` supersedes it and leaves, and a connection whose id is again `a` takes the room.
-- The first claim of `a`, which `b` had fenced out, holds again.
pub release_revives_claim :
    (c a b node ttl_ms t₁ t₂ t₃ : ℕ) (rooms : Rooms)
    → rooms c ≡ none
    → a < b
    → let by_a : ClaimParams = record {
      companion_id = c;
      connection_id = a;
      node = node;
      ttl_ms = ttl_ms;
    } in
      let by_b : ClaimParams = record {
        companion_id = c;
        connection_id = b;
        node = node;
        ttl_ms = ttl_ms;
      } in
      let with_b = (claim by_b t₂ (claim by_a t₁ rooms).1).1 in
      (holds c a 1 with_b ≡ false) × (holds c a 1 (claim by_a t₃ (release c b 2 with_b)).1 ≡ true)
unfolding holds under claim claimed_row write_claim first_claim take_over yields_to release put
release_revives_claim c a b node ttl_ms t₁ t₂ t₃ rooms e h =
    (ground (arith, ==_self c, ==_self a), ground (arith, ==_self c, ==_self a, ==_self b))
