-- ===== src/Vitality/Examples.antt =====
-- Tests of the wallets on concrete companions, and instances of their theorems.
use cobble_companion.Base.{
  ◌-◌, ◌+◌, min, ◌≡◌, refl, none, some, List, [], ◌∷◌, ◌==◌, if◌then◌else◌, inl, inr, Bool-cases,
  put, arith,
}
use cobble_companion.Vitality.{
  stamina, energy, whole, negative, infinite, Wallets, Companions, column, set_column, get_balance,
  usable, update_balance, spend, add, meter_spend, nothing_spent, max_safe_balance,
}
use cobble_companion.Vitality.Wallet.{
  Change, spends, adds, apply, apply_all, Bounded, debited, debits_total, fed, feeds_total,
}

abbrev pub wallets : Wallets
wallets = record { stamina_balance = 500; energy_balance = 70 }

abbrev pub one_companion : Companions
one_companion = λ id. if id == 4 then some wallets else none

one_companion-Bounded : Bounded one_companion
unfolding get_balance column
one_companion-Bounded stamina id = elim (Bool-cases (id == 4)) [
  | inl h ↦ rw (h, get_balance) (omega arith)
  | inr h ↦ rw (h, get_balance) (omega arith)
]
one_companion-Bounded energy id = elim (Bool-cases (id == 4)) [
  | inl h ↦ rw (h, get_balance) (omega arith)
  | inr h ↦ rw (h, get_balance) (omega arith)
]

abbrev changes : List Change
changes =
    spends stamina 4 (whole 200)
    ∷ adds energy 4 (whole 30)
    ∷ spends energy 4 (negative 5)
    ∷ adds stamina 9 (whole 8)
    ∷ []

changes_applied : get_balance stamina 4 (apply_all changes one_companion) ≡ 300
unfolding get_balance column set_column apply_all apply usable update_balance spend add put
changes_applied = refl

metered : get_balance energy 4 (meter_spend (some energy) 4 (whole 100) one_companion) ≡ 0
unfolding meter_spend nothing_spent get_balance column set_column usable update_balance spend put
metered = refl

abbrev debits : List Change
debits =
    spends stamina 4 (whole 200) ∷ spends energy 4 (whole 30) ∷ spends stamina 4 (whole 400) ∷ []

debits_total_example :
    get_balance stamina 4 (apply_all debits one_companion)
    ≡ get_balance stamina 4 one_companion - debited stamina 4 debits
debits_total_example = debits_total stamina 4 debits one_companion (refl, (refl, (refl, tt)))

abbrev feeds : List Change
feeds = adds stamina 4 (whole 200) ∷ adds stamina 4 infinite ∷ adds stamina 4 (whole 400) ∷ []

feeds_total_example :
    get_balance stamina 4 (apply_all feeds one_companion)
    ≡ min max_safe_balance (get_balance stamina 4 one_companion + fed stamina 4 feeds)
feeds_total_example =
    feeds_total stamina 4 feeds one_companion wallets refl one_companion-Bounded
      (refl, (refl, (refl, tt)))
