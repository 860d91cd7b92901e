-- ===== src/Motivation/Arbitration.antt =====
-- core/src/motivation/arbitration.ts (decideMove) and core/src/greeting/decide.ts (decideGreeting).
use cobble_companion.Base.{
  ℕ, ◌*◌, ◌/◌, min, max, Bool, true, false, not, ◌||◌, ltb, leb, if◌then◌else◌, Option, none, some,
}
use cobble_companion.Motivation.Presence.{PresenceState, may_initiate}

pub data ProactivityDial : Type 0 where
  off : ProactivityDial
  gentle : ProactivityDial
  eager : ProactivityDial

abbrev pub estimated_read_cost_tokens : ℕ
estimated_read_cost_tokens = 1500

-- The level and the weight of curiosity are in thousandths, and their product, the pressure, in
-- millionths, without the rounding of the code's numbers. The focus length is whole.
pub record ArbitrationInput : Type 0 where
  pub curiosity_level : ℕ
  pub curiosity_weight : ℕ
  pub presence : PresenceState
  pub dial : ProactivityDial
  pub energy_remaining : ℕ
  pub focus_length : ℕ

pub record ExploreMove : Type 0 where
  pub limit : ℕ
  pub pressure : ℕ

-- Whether the pressure is below the threshold of the dial.
abbrev pub below_threshold : ProactivityDial → ℕ → Bool
below_threshold off pressure = true
below_threshold gentle pressure = ltb pressure 300000
below_threshold eager pressure = ltb pressure 150000

abbrev pub is_off : ProactivityDial → Bool
is_off off = true
is_off gentle = false
is_off eager = false

unfoldable pub decide_move : ArbitrationInput → Option ExploreMove
decide_move input =
    let affordable = input.energy_remaining / estimated_read_cost_tokens in
    let pressure = input.curiosity_level * input.curiosity_weight in
    let focus = max 1 input.focus_length in
    if is_off input.dial
    then none
    else if ltb affordable 1
    then none
    else if not (may_initiate input.presence)
    then none
    else if below_threshold input.dial pressure
    then none
    else some (record { limit = min focus affordable; pressure = pressure })

pub data GreetingKind : Type 0 where
  introduce : GreetingKind
  greet : GreetingKind

pub record GreetingDecisionInput : Type 0 where
  pub first_meeting : Bool
  pub gap_ms : ℕ
  pub greeting_dial : ProactivityDial
  pub has_open_loop : Bool

abbrev pub continuation_floor_ms : ℕ
continuation_floor_ms = 30 * 60000

abbrev pub active_gap_ms : ℕ
active_gap_ms = 60 * 60000

abbrev pub gentle_gap_ms : ℕ
gentle_gap_ms = 24 * 60 * 60000

-- The gap from which a return is greeted, where nothing is open.
abbrev pub greeted_gap_ms : ProactivityDial → ℕ
greeted_gap_ms off = 0
greeted_gap_ms gentle = gentle_gap_ms
greeted_gap_ms eager = active_gap_ms

unfoldable pub decide_greeting : GreetingDecisionInput → Option GreetingKind
decide_greeting input =
    if input.first_meeting
    then some introduce
    else if is_off input.greeting_dial
    then none
    else if ltb input.gap_ms continuation_floor_ms
    then none
    else if input.has_open_loop || leb (greeted_gap_ms input.greeting_dial) input.gap_ms
    then some greet
    else none
