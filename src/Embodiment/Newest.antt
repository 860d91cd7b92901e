-- ===== src/Embodiment/Newest.antt =====
-- Which of several connections ends up with the room.
use cobble_companion.Base.{
  ℕ, ◌+◌, ◌≤◌, ◌≡◌, ◌↔◌, none, some, List, [], ◌∷◌, if◌then◌else◌, All, put, max, arith, subst, sym,
}
use cobble_companion.Embodiment.{
  EmbodimentRow, Rooms, ClaimParams, first_claim, take_over, yields_to, claimed_row, write_claim,
  claim, current, get_presence, live_row,
}

-- Attempts to claim, each at its time.
unfoldable pub claim_all : List (ℕ × ClaimParams) → Rooms → Rooms
claim_all [] rooms = rooms
claim_all ((now, p) ∷ ps) rooms = claim_all ps (claim p now rooms).1

-- The newest connection among the attempts.
abbrev pub newest_of : List (ℕ × ClaimParams) → ℕ
newest_of [] = 0
newest_of ((now, p) ∷ ps) = max p.connection_id (newest_of ps)

-- Attempts at one room, none so late that the holder of another would have lapsed.
abbrev pub Overlapping : ℕ → ℕ → ℕ → List (ℕ × ClaimParams) → Type 0
Overlapping c ttl_ms start ps =
    All
      (λ (e : ℕ × ClaimParams).
        (e.1.companion_id ≡ c) × (e.1.ttl_ms ≡ ttl_ms) × (start ≤ e.0) × (e.0 ≤ start + ttl_ms))
      ps

-- What one attempt leaves in an occupied room.
claim_occupied :
    (c ttl_ms start now : ℕ) (p : ClaimParams) (rooms : Rooms) (r : EmbodimentRow)
    → p.companion_id ≡ c
    → p.ttl_ms ≡ ttl_ms
    → start ≤ now
    → now ≤ start + ttl_ms
    → rooms c ≡ some r
    → start ≤ r.last_heartbeat
    → (r' : EmbodimentRow) × ((claim p now rooms).1 c ≡ some r')
      × (r'.connection_id ≡ max r.connection_id p.connection_id)
      × (start ≤ r'.last_heartbeat)
unfolding claim claimed_row write_claim take_over yields_to put
claim_occupied c ttl_ms start now p rooms r pc pt a b e s =
    (if yields_to p now r then take_over p now r else r, ground arith, ground arith, ground arith)

claim_all_occupied :
    (c ttl_ms start : ℕ) (ps : List (ℕ × ClaimParams)) (rooms : Rooms) (r : EmbodimentRow)
    → Overlapping c ttl_ms start ps
    → rooms c ≡ some r
    → start ≤ r.last_heartbeat
    → (r' : EmbodimentRow) × (claim_all ps rooms c ≡ some r')
      × (r'.connection_id ≡ max r.connection_id (newest_of ps))
unfolding claim_all
claim_all_occupied c ttl_ms start [] rooms r h e s = (r, e, omega arith)
claim_all_occupied c ttl_ms start ((now, p) ∷ ps) rooms r ((pc, pt, a, b), h) e s =
    let (r₁, e₁, m₁, s₁) = claim_occupied c ttl_ms start now p rooms r pc pt a b e s in
    let (r₂, e₂, m₂) = claim_all_occupied c ttl_ms start ps (claim p now rooms).1 r₁ h e₁ s₁ in
    (r₂, e₂, omega (arith, m₁, m₂))

claim_empty :
    (p : ClaimParams) (now : ℕ) (rooms : Rooms)
    → rooms p.companion_id ≡ none
    → (claim p now rooms).1 p.companion_id ≡ some (first_claim p now)
unfolding claim claimed_row write_claim put
claim_empty p now rooms e = ground arith

-- Several connections claim a room that nobody holds, each time-to-live the same and all of them
-- within it: whatever the order in which the claims arrive, the newest connection holds the room.
pub newest_wins :
    (c ttl_ms start now : ℕ) (p : ClaimParams) (ps : List (ℕ × ClaimParams)) (rooms : Rooms)
    → rooms c ≡ none
    → Overlapping c ttl_ms start ((now, p) ∷ ps)
    → (r : EmbodimentRow) × (claim_all ((now, p) ∷ ps) rooms c ≡ some r)
      × (r.connection_id ≡ newest_of ((now, p) ∷ ps))
unfolding claim_all first_claim
newest_wins c ttl_ms start now p ps rooms e ((pc, pt, a, b), h) =
    claim_all_occupied c ttl_ms start ps (claim p now rooms).1 (first_claim p now) h
      (subst (λ x. (claim p now rooms).1 x ≡ some (first_claim p now)) pc
        (claim_empty p now rooms (subst (λ x. rooms x ≡ none) (sym pc) e)))
      a

-- A companion is absent exactly where it has no live claim.
pub presence_iff :
    (c ttl_ms now : ℕ) (rooms : Rooms)
    → (get_presence c ttl_ms now rooms ≡ none) ↔ (current c ttl_ms now rooms ≡ none)
unfolding get_presence current live_row
presence_iff c ttl_ms now rooms = (λ h. ground arith, λ h. ground arith)
