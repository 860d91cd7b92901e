-- ===== src/Motivation/Presence.antt =====
-- core/src/motivation/presence.ts, and the store in memory of presence-store.ts.
use cobble_companion.Base.{
  ℕ, ◌-◌, ◌*◌, Bool, true, false, ◌&&◌, ◌==◌, leb, if◌then◌else◌, Option, none, some,
}
use cobble_companion.Embodiment.{PresenceSignal}

pub data PresenceState : Type 0 where
  active : PresenceState
  attentive : PresenceState
  away_short : PresenceState
  absent_long : PresenceState

pub record PresenceThresholds : Type 0 where
  pub active_within_ms : ℕ
  pub attentive_within_ms : ℕ
  pub away_within_ms : ℕ

abbrev pub default_presence_thresholds : PresenceThresholds
default_presence_thresholds = record {
  active_within_ms = 30000;
  attentive_within_ms = 10 * 60000;
  away_within_ms = 3 * 60 * 60000;
}

-- An age below 0, of a signal from a clock that is ahead, counts as 0: it is within each of the windows.
unfoldable pub classify_presence : PresenceSignal → ℕ → PresenceThresholds → PresenceState
classify_presence signal now t =
    let activity_age = now - signal.last_activity_at in
    let heartbeat_age = now - signal.last_heartbeat_at in
    if leb activity_age t.active_within_ms
    then active
    else if signal.tab_visible && leb heartbeat_age t.attentive_within_ms
    then attentive
    else if leb heartbeat_age t.away_within_ms
    then away_short
    else absent_long

-- `mayInitiate` of the posture.
abbrev pub may_initiate : PresenceState → Bool
may_initiate active = false
may_initiate attentive = true
may_initiate away_short = true
may_initiate absent_long = true

-- The state of `presencePosture`.
unfoldable pub presence_state : Option PresenceSignal → ℕ → PresenceThresholds → PresenceState
unfolding classify_presence
presence_state none now t = absent_long
presence_state (some signal) now t = classify_presence signal now t

-- The signals of the companions.
abbrev pub Signals : Type 0
Signals = ℕ → Option PresenceSignal

unfoldable pub set_signal : ℕ → PresenceSignal → Signals → Signals
set_signal companion signal signals = λ c. if c == companion then some signal else signals c

abbrev pub activity_of : Option PresenceSignal → ℕ → ℕ
activity_of none at = at
activity_of (some s) at = s.last_activity_at

abbrev pub visible_of : Option PresenceSignal → Bool
visible_of none = true
visible_of (some s) = s.tab_visible

unfoldable pub record_heartbeat : ℕ → Bool → ℕ → Signals → Signals
unfolding set_signal
record_heartbeat companion visible at signals =
    set_signal companion
      (record {
        last_activity_at = activity_of (signals companion) at;
        last_heartbeat_at = at;
        tab_visible = visible;
      })
      signals

unfoldable pub record_activity : ℕ → ℕ → Signals → Signals
unfolding set_signal
record_activity companion at signals =
    set_signal companion
      (record {
        last_activity_at = at;
        last_heartbeat_at = at;
        tab_visible = visible_of (signals companion);
      })
      signals
