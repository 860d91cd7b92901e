-- ===== src/Feeding.antt =====
-- packages/core/src/growth/food-store.ts and economy.ts, with the catalogue of foods of
-- packages/shared/src/contracts.ts: feeding takes one food from the user's pantry and adds its tokens
-- to the companion's wallets. A statement reads and writes at once; between the statements of one call
-- nobody else acts.
pub mod Laws
pub mod Examples
use cobble_companion.Base.{
  ℕ, suc, ◌+◌, ◌-◌, Bool, true, false, Option, none, some, List, [], ◌∷◌, ltb, ◌==◌, if◌then◌else◌,
  put, find_where,
}
use cobble_companion.Vitality.{
  VitalityKind, stamina, energy, Tokens, whole, Companions, Outcome, ok, companion_not_found, add,
}

pub data FoodType : Type 0 where
  ration spark treat : FoodType

pub record FoodDef : Type 0 where
  pub type : FoodType
  pub stamina_tokens : ℕ
  pub energy_tokens : ℕ

abbrev pub foods : List FoodDef
foods =
    record { type = ration; stamina_tokens = 200000; energy_tokens = 0 }
    ∷ record { type = spark; stamina_tokens = 0; energy_tokens = 200000 }
    ∷ record { type = treat; stamina_tokens = 80000; energy_tokens = 80000 }
    ∷ []

abbrev pub same_food : FoodType → FoodType → Bool
same_food ration ration = true
same_food spark spark = true
same_food treat treat = true
same_food _ _ = false

unfoldable pub food_def : FoodType → Option FoodDef
unfolding find_where
food_def type = find_where (λ f. same_food f.type type) foods

pub record FoodInventory : Type 0 where
  pub ration_count : ℕ
  pub spark_count : ℕ
  pub treat_count : ℕ

-- The rows of `user_food`, by user, and those of `companions`.
pub record World : Type 0 where
  pub pantries : ℕ → Option FoodInventory
  pub companions : Companions

-- The column of a food, and its decrement.
abbrev pub held_of : FoodType → FoodInventory → ℕ
held_of ration p = p.ration_count
held_of spark p = p.spark_count
held_of treat p = p.treat_count

unfoldable pub take_one : FoodType → FoodInventory → FoodInventory
take_one ration p = record p { ration_count = p.ration_count - 1 }
take_one spark p = record p { spark_count = p.spark_count - 1 }
take_one treat p = record p { treat_count = p.treat_count - 1 }

-- `initialFood` of each.
abbrev pub seeded : ℕ → FoodInventory
seeded n = record { ration_count = n; spark_count = n; treat_count = n }

-- Read the pantry, creating it on first use.
unfoldable pub load : ℕ → ℕ → World → FoodInventory × World
load initial_food user world = elim (world.pantries user) [
  | some p ↦ (p, world)
  | none ↦ (
    seeded initial_food,
    record world { pantries = put user (some (seeded initial_food)) world.pantries },
  )
]

-- UPDATE … SET count - 1 WHERE user AND count > 0.
decrement : FoodType → ℕ → World → Bool × World
decrement food user world = elim (world.pantries user) [
  | none ↦ (false, world)
  | some p ↦
      if ltb 0 (held_of food p)
      then (true, record world { pantries = put user (some (take_one food p)) world.pantries })
      else (false, world)
]

-- Nobody acts between the load, which only makes sure that there is a row, and the guarded update.
unfoldable pub consume : ℕ → ℕ → FoodType → World → Bool × World
unfolding load decrement take_one
consume initial_food user food world =
    let (pantry, world') = load initial_food user world in decrement food user world'

pub record FeedParams : Type 0 where
  pub companion_id : ℕ
  pub user_id : ℕ
  pub food : FoodType

pub data FeedResult : Type 0 where
  ok_fed : FeedResult
  unknown_food out_of_food : FeedResult
  -- The error that is logged and thrown on, and whether the stamina had been added.
  threw : Bool → FeedResult

-- `if (tokens > 0) await wallet.add(...)`.
add_grant : VitalityKind → ℕ → ℕ → Companions → Outcome
add_grant kind companion tokens db =
    if ltb 0 tokens then add kind companion (whole tokens) db else ok db

grant_energy : ℕ → FoodDef → World → FeedResult × World
unfolding add_grant
grant_energy companion def world =
    elim (add_grant energy companion def.energy_tokens world.companions) [
      | ok db ↦ (ok_fed, record world { companions = db })
      | companion_not_found id ↦ (threw (ltb 0 def.stamina_tokens), world)
    ]

grant : ℕ → FoodDef → World → FeedResult × World
unfolding add_grant grant_energy
grant companion def world = elim (add_grant stamina companion def.stamina_tokens world.companions) [
  | ok db ↦ grant_energy companion def (record world { companions = db })
  | companion_not_found id ↦ (threw false, world)
]

unfoldable pub feed : ℕ → FeedParams → World → FeedResult × World
unfolding grant
feed initial_food params world = elim (food_def params.food) [
  | none ↦ (unknown_food, world)
  | some def ↦
      let (consumed, world') = consume initial_food params.user_id params.food world in
      if consumed then grant params.companion_id def world' else (out_of_food, world')
]
