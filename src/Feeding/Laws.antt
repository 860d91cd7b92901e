-- ===== src/Feeding/Laws.antt =====
-- What one feed does, and what any series of feeds adds up to.
use cobble_companion.Base.{
  ℕ, ◌+◌, ◌-◌, ◌≤◌, ◌≡◌, refl, ap, ◌∙◌, inl, inr, true, false, ◌&&◌, Option, none, some, List, [],
  ◌∷◌, min, ltb, ◌==◌, if◌then◌else◌, put, arith, Bool-cases,
}
use cobble_companion.Vitality.{
  VitalityKind, stamina, energy, Wallets, Companions, max_safe_balance, get_balance, add, usable,
  update_balance, column, set_column,
}
use cobble_companion.Feeding.{
  FoodType, ration, spark, treat, FoodDef, FoodInventory, same_food, food_def, World, held_of,
  take_one, load, decrement, consume, FeedParams, FeedResult, ok_fed, unknown_food, out_of_food,
  add_grant, grant_energy, grant, feed,
}

-- What a user has of a food, whose pantry is seeded on first use.
abbrev pub held_or : ℕ → FoodType → Option FoodInventory → ℕ
held_or initial_food food none = initial_food
held_or initial_food food (some p) = held_of food p

unfoldable pub stock : ℕ → FoodType → ℕ → World → ℕ
stock initial_food food user world = held_or initial_food food (world.pantries user)

-- The grants of each food.
abbrev pub grants : VitalityKind → FoodType → ℕ
grants stamina ration = 200000
grants stamina spark = 0
grants stamina treat = 80000
grants energy ration = 0
grants energy spark = 200000
grants energy treat = 80000

consume_lem :
    (n user : ℕ) (food : FoodType) (world : World)
    → ((consume n user food world).0 ≡ ltb 0 (stock n food user world))
      × ((consume n user food world).1.companions ≡ world.companions)
unfolding consume stock load decrement put take_one
consume_lem n user ration world = ground arith
consume_lem n user food world = ground arith

stock-consume :
    (n user u : ℕ) (food f : FoodType) (world : World)
    → stock n f u (consume n user food world).1
      ≡ (if same_food food f && user == u then stock n f u world - 1 else stock n f u world)
unfolding consume stock load decrement put take_one
stock-consume n user u ration ration world = ground arith
stock-consume n user u ration spark world = ground arith
stock-consume n user u food f world = ground arith

grant-pantries :
    (companion : ℕ) (def : FoodDef) (world : World)
    → (grant companion def world).1.pantries ≡ world.pantries
unfolding grant grant_energy
grant-pantries companion def world = ground arith

abbrev def_of : FoodType → FoodDef
def_of food = record {
  type = food;
  stamina_tokens = grants stamina food;
  energy_tokens = grants energy food;
}

food_def_of : (food : FoodType) → food_def food ≡ some (def_of food)
unfolding food_def
food_def_of ration = refl
food_def_of spark = refl
food_def_of treat = refl

-- Every food is in the catalogue, so a feed is a consumption and then a grant.
feed-eq :
    (n : ℕ) (p : FeedParams) (world : World)
    → feed n p world ≡ (
        if (consume n p.user_id p.food world).0
        then grant p.companion_id (def_of p.food) (consume n p.user_id p.food world).1
        else (out_of_food, (consume n p.user_id p.food world).1))
unfolding feed
feed-eq n p world = rw (food_def_of p.food, feed)

feed_granted :
    (n : ℕ) (p : FeedParams) (world : World)
    → (consume n p.user_id p.food world).0 ≡ true
    → feed n p world ≡ grant p.companion_id (def_of p.food) (consume n p.user_id p.food world).1
feed_granted n p world h = feed-eq n p world ∙ rw h

feed_refused :
    (n : ℕ) (p : FeedParams) (world : World)
    → (consume n p.user_id p.food world).0 ≡ false
    → feed n p world ≡ (out_of_food, (consume n p.user_id p.food world).1)
feed_refused n p world h = feed-eq n p world ∙ rw h

stock-grant :
    (n : ℕ) (f : FoodType) (u companion : ℕ) (def : FoodDef) (world : World)
    → stock n f u (grant companion def world).1 ≡ stock n f u world
unfolding stock
stock-grant n f u companion def world =
    ap (λ (x : ℕ → Option FoodInventory). held_or n f (x u)) (grant-pantries companion def world)

feed-stock :
    (n : ℕ) (p : FeedParams) (f : FoodType) (u : ℕ) (world : World)
    → stock n f u (feed n p world).1
      ≡ (if same_food p.food f && p.user_id == u then stock n f u world - 1 else stock n f u world)
feed-stock n p f u world = ground (
  arith,
  feed-eq n p world,
  stock-grant n f u p.companion_id (def_of p.food) (consume n p.user_id p.food world).1,
  stock-consume n p.user_id u p.food f world,
)

grant_fed :
    (companion : ℕ) (food : FoodType) (world : World) (w : Wallets)
    → world.companions companion ≡ some w
    → w.stamina_balance ≤ max_safe_balance
    → w.energy_balance ≤ max_safe_balance
    → (k : VitalityKind)
    → ((grant companion (def_of food) world).0 ≡ ok_fed)
      × (get_balance k companion (grant companion (def_of food) world).1.companions
          ≡ min max_safe_balance (get_balance k companion world.companions + grants k food))
unfolding grant grant_energy add_grant add usable update_balance column set_column get_balance put
grant_fed companion ration world w e a b stamina = ground arith
grant_fed companion food world w e a b k = ground arith

-- A feed of a companion that exists, with balances up to the ceiling: it succeeds exactly where the user has the food; then both wallets
-- rise by that food's grants, up to the ceiling, and one of that food leaves that user's pantry. Where
-- the user has none, the balances stay. No other stock changes.
pub feed_lem :
    (n : ℕ) (p : FeedParams) (world : World) (w : Wallets)
    → world.companions p.companion_id ≡ some w
    → w.stamina_balance ≤ max_safe_balance
    → w.energy_balance ≤ max_safe_balance
    → (k : VitalityKind) (f : FoodType) (u : ℕ)
    → let has = ltb 0 (stock n p.food p.user_id world) in
      let after = feed n p world in
      (after.0 ≡ (if has then ok_fed else out_of_food))
      × (get_balance k p.companion_id after.1.companions ≡ (
          if has
          then min max_safe_balance
              (get_balance k p.companion_id world.companions + grants k p.food)
          else get_balance k p.companion_id world.companions))
      × (stock n f u after.1 ≡ (
          if same_food p.food f && p.user_id == u
          then stock n f u world - 1
          else stock n f u world))
feed_lem n p world w e a b k f u =
    let (took, same) = consume_lem n p.user_id p.food world in
    elim (Bool-cases (ltb 0 (stock n p.food p.user_id world))) [
      | inl h ↦
          let (done, balance) =
            grant_fed p.companion_id p.food (consume n p.user_id p.food world).1 w
              (ap (λ (x : Companions). x p.companion_id) same ∙ e) a b k in
          let is = feed_granted n p world (took ∙ h) in
          rw h (
            ap (λ (x : FeedResult × World). x.0) is ∙ done,
            ap (λ (x : FeedResult × World). get_balance k p.companion_id x.1.companions) is
                ∙ balance
                ∙ ap
                    (λ (x : Companions).
                      min max_safe_balance (get_balance k p.companion_id x + grants k p.food))
                    same,
            feed-stock n p f u world,
          )
      | inr h ↦
          let is = feed_refused n p world (took ∙ h) in
          rw h (
            ap (λ (x : FeedResult × World). x.0) is,
            ap (λ (x : FeedResult × World). get_balance k p.companion_id x.1.companions) is
                ∙ ap (get_balance k p.companion_id) same,
            feed-stock n p f u world,
          )
    ]

-- A series of feeds, and what it takes of a user's food: a feed that is not refused takes one.
abbrev pub takes : FoodType → ℕ → FeedParams → FeedResult → ℕ
takes f u p out_of_food = 0
takes f u p unknown_food = 0
takes f u p _ = if same_food p.food f && p.user_id == u then 1 else 0

unfoldable pub feed_all : ℕ → List FeedParams → World → World
feed_all n [] world = world
feed_all n (p ∷ ps) world = feed_all n ps (feed n p world).1

unfoldable pub taken : ℕ → FoodType → ℕ → List FeedParams → World → ℕ
taken n f u [] world = 0
taken n f u (p ∷ ps) world = takes f u p (feed n p world).0 + taken n f u ps (feed n p world).1

takes-grant :
    (f : FoodType) (u : ℕ) (p : FeedParams) (def : FoodDef) (world : World)
    → takes f u p (grant p.companion_id def world).0
      ≡ (if same_food p.food f && p.user_id == u then 1 else 0)
unfolding grant grant_energy
takes-grant f u p def world = ground arith

same_stock :
    (n : ℕ) (food f : FoodType) (user u : ℕ) (world : World)
    → (same_food food f && user == u) ≡ true
    → stock n food user world ≡ stock n f u world
same_stock n ration ration user u world h = ground arith
same_stock n spark spark user u world h = ground arith
same_stock n treat treat user u world h = ground arith
same_stock n food f user u world h = ground arith

feed-takes :
    (n : ℕ) (p : FeedParams) (f : FoodType) (u : ℕ) (world : World)
    → stock n f u (feed n p world).1 + takes f u p (feed n p world).0 ≡ stock n f u world
feed-takes n p f u world = ground (
  arith,
  feed-stock n p f u world,
  feed-eq n p world,
  (consume_lem n p.user_id p.food world).0,
  takes-grant f u p (def_of p.food) (consume n p.user_id p.food world).1,
  same_stock n p.food f p.user_id u world,
)

-- Through any series of feeds, by any users to any
-- companions, what a user has of a food and the feeds that took one of it add up to what there was.
pub feed_all-conserves :
    (n : ℕ) (f : FoodType) (u : ℕ) (ps : List FeedParams) (world : World)
    → stock n f u (feed_all n ps world) + taken n f u ps world ≡ stock n f u world
unfolding feed_all taken
feed_all-conserves n f u [] world = omega arith
feed_all-conserves n f u (p ∷ ps) world =
    omega (arith, feed-takes n p f u world, feed_all-conserves n f u ps (feed n p world).1)
