-- ===== src/Vitality.antt =====
-- packages/core/src/quota/vitality-store.ts: the two token wallets of a companion, columns of its row
-- in `companions`. A balance starts at a count of tokens and the statements keep it from going below
-- 0, so it is a natural number.
pub mod Wallet
pub mod Examples
use cobble_companion.Base.{
  ℕ, suc, ◌+◌, ◌-◌, ◌^◌, Bool, true, false, Option, none, some, min, ltb, leb, ◌==◌, if◌then◌else◌,
  put,
}

pub data VitalityKind : Type 0 where
  stamina energy : VitalityKind

-- A JavaScript number of tokens: whole, below zero, or not finite. Fractions above zero, which the code
-- lets through to the balances, are left out.
pub data Tokens : Type 0 where
  whole : ℕ → Tokens
  negative : ℕ → Tokens
  not_a_number infinite minus_infinite : Tokens

pub record Wallets : Type 0 where
  pub stamina_balance : ℕ
  pub energy_balance : ℕ

-- The rows of `companions`, by id.
abbrev pub Companions : Type 0
Companions = ℕ → Option Wallets

-- Number.MAX_SAFE_INTEGER.
abbrev pub max_safe_balance : ℕ
max_safe_balance = 9007199254740991

pub data Outcome : Type 0 where
  ok : Companions → Outcome
  companion_not_found : ℕ → Outcome

-- The metered column, read and written.
unfoldable pub column : VitalityKind → Wallets → ℕ
column stamina w = w.stamina_balance
column energy w = w.energy_balance

unfoldable pub set_column : VitalityKind → ℕ → Wallets → Wallets
set_column stamina n w = record w { stamina_balance = n }
set_column energy n w = record w { energy_balance = n }

unfoldable pub get_balance : VitalityKind → ℕ → Companions → ℕ
get_balance kind id db = elim (db id) [ none ↦ 0 | some w ↦ column kind w ]

unfoldable pub is_empty : VitalityKind → ℕ → Companions → Bool
is_empty kind id db = leb (get_balance kind id db) 0

-- `Number.isFinite(tokens) && tokens > 0`, with the amount.
unfoldable pub usable : Tokens → Option ℕ
usable (whole n) = if ltb 0 n then some n else none
usable (negative n) = none
usable not_a_number = none
usable infinite = none
usable minus_infinite = none

-- One UPDATE … WHERE id … RETURNING, that fails where it touches no row.
unfoldable pub update_balance : VitalityKind → (ℕ → ℕ) → ℕ → Companions → Outcome
update_balance kind f id db = elim (db id) [
  | none ↦ companion_not_found id
  | some w ↦ ok (put id (some (set_column kind (f (column kind w)) w)) db)
]

unfoldable pub spend : VitalityKind → ℕ → Tokens → Companions → Outcome
spend kind id tokens db = elim (usable tokens) [
  | none ↦ ok db
  | some n ↦ update_balance kind (λ b. b - n) id db
]

unfoldable pub add : VitalityKind → ℕ → Tokens → Companions → Outcome
add kind id tokens db = elim (usable tokens) [
  | none ↦ ok db
  | some n ↦ update_balance kind (λ b. min max_safe_balance (b + n)) id db
]

-- `totalTokens <= 0`; a comparison with a value that is no number is false.
unfoldable pub nothing_spent : Tokens → Bool
nothing_spent (whole n) = leb n 0
nothing_spent (negative n) = true
nothing_spent not_a_number = false
nothing_spent infinite = false
nothing_spent minus_infinite = true

-- What a failure leaves, once it is logged and swallowed.
abbrev after : Companions → Outcome → Companions
after db (ok db') = db'
after db (companion_not_found id) = db

-- Best-effort metering: `quota` is the wallet, where there is one.
unfoldable pub meter_spend : Option VitalityKind → ℕ → Tokens → Companions → Companions
meter_spend none id total db = db
meter_spend (some kind) id total db =
    if nothing_spent total then db else after db (spend kind id total db)
