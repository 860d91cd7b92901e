-- ===== src/Motivation/Restraint.antt =====
-- The companion makes no move of its own while its user is active.
use cobble_companion.Base.{
  ℕ, ◌+◌, ◌-◌, ◌*◌, ◌/◌, ◌≤◌, min, max, ◌≡◌, refl, ◌∙◌, ==_self, subst, Bool, true, false, not,
  ◌==◌, ==_iff, ltb, leb, if◌then◌else◌, Bool-cases, inl, inr, some_inj, Option, none, some, List,
  [], ◌∷◌, All, arith,
}
use cobble_companion.Embodiment.{PresenceSignal}
use cobble_companion.Motivation.Presence.{
  active, PresenceThresholds, classify_presence, may_initiate, presence_state, Signals, set_signal,
  activity_of, record_heartbeat, record_activity,
}
use cobble_companion.Motivation.Arbitration.{
  estimated_read_cost_tokens, ArbitrationInput, ExploreMove, below_threshold, is_off, decide_move,
}

-- A write to the store, with the companion and the time.
pub data PresenceWrite : Type 0 where
  beats : ℕ → Bool → ℕ → PresenceWrite
  acts : ℕ → ℕ → PresenceWrite

unfoldable pub write : PresenceWrite → Signals → Signals
unfolding record_heartbeat record_activity
write (beats c visible at) signals = record_heartbeat c visible at signals
write (acts c at) signals = record_activity c at signals

unfoldable pub write_all : List PresenceWrite → Signals → Signals
unfolding write
write_all [] signals = signals
write_all (w ∷ ws) signals = write_all ws (write w signals)

-- The activity that it writes, if any, is not from before `t`.
abbrev pub NotBefore : ℕ → PresenceWrite → Type 0
NotBefore t (beats c visible at) = Unit
NotBefore t (acts c at) = t ≤ at

-- The last activity of the companion's user is not from before `t`.
abbrev ActiveSince : ℕ → Option PresenceSignal → Type 0
ActiveSince t none = ⊥
ActiveSince t (some s) = t ≤ s.last_activity_at

ActiveSince-activity_of :
    (t at : ℕ) (o : Option PresenceSignal) → ActiveSince t o → t ≤ activity_of o at
ActiveSince-activity_of t at none h = absurd h
ActiveSince-activity_of t at (some s) h = h

write-ActiveSince :
    (t c : ℕ) (w : PresenceWrite) (signals : Signals)
    → NotBefore t w
    → ActiveSince t (signals c)
    → ActiveSince t (write w signals c)
unfolding write record_heartbeat record_activity set_signal
write-ActiveSince t c (beats c' visible at) signals n h = elim (Bool-cases (c == c')) [
  | inl e ↦
      let here = subst (λ k. ActiveSince t (signals k)) ((==_iff c c').0 e) h in
      rw e (ActiveSince-activity_of t at (signals c') here)
  | inr e ↦ rw e h
]
write-ActiveSince t c (acts c' at) signals n h = elim (Bool-cases (c == c')) [
  | inl e ↦ rw e n
  | inr e ↦ rw e h
]

write_all-ActiveSince :
    (t c : ℕ) (ws : List PresenceWrite) (signals : Signals)
    → All (NotBefore t) ws
    → ActiveSince t (signals c)
    → ActiveSince t (write_all ws signals c)
unfolding write_all
write_all-ActiveSince t c [] signals n h = h
write_all-ActiveSince t c (w ∷ ws) signals n h =
    write_all-ActiveSince t c ws (write w signals) n.1 (write-ActiveSince t c w signals n.0 h)

ActiveSince-active :
    (t now : ℕ) (o : Option PresenceSignal) (windows : PresenceThresholds)
    → now ≤ t + windows.active_within_ms
    → ActiveSince t o
    → presence_state o now windows ≡ active
unfolding presence_state classify_presence
ActiveSince-active t now none windows n h = absurd h
ActiveSince-active t now (some s) windows n h =
    let fresh : leb (now - s.last_activity_at) windows.active_within_ms ≡ true = ground arith in
    rw fresh

record_activity-ActiveSince :
    (t c : ℕ) (signals : Signals) → ActiveSince t (record_activity c t signals c)
unfolding record_activity set_signal
record_activity-ActiveSince t c signals = rw (==_self c) (omega arith)

decide_move-active : (input : ArbitrationInput) → input.presence ≡ active → decide_move input ≡ none
unfolding decide_move
decide_move-active input e = elim (Bool-cases (is_off input.dial)) [
  | inl o ↦ rw o refl
  | inr o ↦ elim (Bool-cases (ltb (input.energy_remaining / estimated_read_cost_tokens) 1)) [
    | inl low ↦ rw (o, low) refl
    | inr low ↦ rw (o, low, e) refl
  ]
]

passed_gate :
    (closed : Bool) (rest : Option ExploreMove) (m : ExploreMove)
    → (if closed then none else rest) ≡ some m
    → (closed ≡ false) × (rest ≡ some m)
passed_gate true rest m h = absurd cc
passed_gate false rest m h = (refl, h)

-- A move plans at least one read, no more than the energy pays for or than the focus length, unless
-- that is 0, when it is one.
decide_move-Planned :
    (input : ArbitrationInput) (m : ExploreMove)
    → decide_move input ≡ some m
    → (1 ≤ m.limit)
      × (m.limit * estimated_read_cost_tokens ≤ input.energy_remaining)
      × (m.limit ≤ max 1 input.focus_length)
unfolding decide_move
decide_move-Planned input m h =
    let affordable = input.energy_remaining / estimated_read_cost_tokens in
    let pressure = input.curiosity_level * input.curiosity_weight in
    let planned : ExploreMove = record {
      limit = min (max 1 input.focus_length) affordable;
      pressure = pressure;
    } in
    let last = if below_threshold input.dial pressure then none else some planned in
    let third = if not (may_initiate input.presence) then none else last in
    let second = if ltb affordable 1 then none else third in
    let (_, h1) = passed_gate (is_off input.dial) second m h in
    let (pays, h2) = passed_gate (ltb affordable 1) third m h1 in
    let (_, h3) = passed_gate (not (may_initiate input.presence)) last m h2 in
    let (_, h4) = passed_gate (below_threshold input.dial pressure) (some planned) m h3 in
    let paid : 1 ≤ affordable = ground arith in
    subst
      (λ n.
        (1 ≤ n.limit)
        × (n.limit * estimated_read_cost_tokens ≤ input.energy_remaining)
        × (n.limit ≤ max 1 input.focus_length))
      (some_inj h4) (omega arith, omega arith, omega arith)

-- From an activity of the user at `t`, through any further heartbeats and activity, none of the
-- activity from before `t`, until the active window has run out since `t`, no move is decided for the
-- companion, whatever its drives, its dial and its energy.
pub record_activity-restrains :
    (t c now : ℕ) (windows : PresenceThresholds) (ws : List PresenceWrite) (signals : Signals)
    (input : ArbitrationInput)
    → All (NotBefore t) ws
    → now ≤ t + windows.active_within_ms
    → input.presence ≡ presence_state (write_all ws (record_activity c t signals) c) now windows
    → decide_move input ≡ none
record_activity-restrains t c now windows ws signals input n h e =
    let since =
      write_all-ActiveSince t c ws (record_activity c t signals) n
        (record_activity-ActiveSince t c signals) in
    decide_move-active input
      (e ∙ ActiveSince-active t now (write_all ws (record_activity c t signals) c) windows h since)
