-- ===== src/Feeding/Examples.antt =====
-- Tests of the feeding on a concrete pantry, and instances of its theorems.
use cobble_companion.Base.{
  ◌-◌, ◌+◌, ◌≡◌, refl, [], ◌∷◌, ◌&&◌, none, some, min, ltb, ◌==◌, if◌then◌else◌, arith,
}
use cobble_companion.Vitality.{stamina, Wallets, max_safe_balance, get_balance}
use cobble_companion.Feeding.{
  ration, spark, treat, World, same_food, FeedParams, ok_fed, out_of_food, feed,
}
use cobble_companion.Feeding.Laws.{stock, grants, feed_lem, feed_all, taken, feed_all-conserves}

abbrev fed_wallets : Wallets
fed_wallets = record { stamina_balance = 500; energy_balance = 70 }

abbrev world : World
world = record {
  pantries = λ u.
      if u == 1 then some (record { ration_count = 2; spark_count = 0; treat_count = 1 }) else none;
  companions = λ id. if id == 4 then some fed_wallets else none;
}

abbrev params : FeedParams
params = record { companion_id = 4; user_id = 1; food = ration }

abbrev no_spark : FeedParams
no_spark = record { companion_id = 4; user_id = 1; food = spark }

feed_lem_example :
    let has = ltb 0 (stock 3 ration 1 world) in
    let after = feed 3 params world in
    (after.0 ≡ (if has then ok_fed else out_of_food))
    × (get_balance stamina 4 after.1.companions ≡ (
        if has
        then min max_safe_balance (get_balance stamina 4 world.companions + grants stamina ration)
        else get_balance stamina 4 world.companions))
    × (stock 3 treat 1 after.1 ≡ (
        if same_food ration treat && 1 == 1
        then stock 3 treat 1 world - 1
        else stock 3 treat 1 world))
feed_lem_example =
    feed_lem 3 params world fed_wallets refl (omega arith) (omega arith) stamina treat 1

feed_all-conserves_example :
    stock 3 ration 1 (feed_all 3 (params ∷ no_spark ∷ params ∷ params ∷ []) world)
      + taken 3 ration 1 (params ∷ no_spark ∷ params ∷ params ∷ []) world
    ≡ stock 3 ration 1 world
feed_all-conserves_example =
    feed_all-conserves 3 ration 1 (params ∷ no_spark ∷ params ∷ params ∷ []) world
