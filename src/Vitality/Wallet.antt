-- ===== src/Vitality/Wallet.antt =====
-- The wallets: bounds, independence, and the order of concurrent debits and feeds.
use cobble_companion.Base.{
  ℕ, ◌+◌, ◌-◌, ◌≤◌, ◌≡◌, ◌≢◌, refl, inl, inr, Bool, true, false, none, some, List, [], ◌∷◌, min,
  ltb, ◌==◌, if◌then◌else◌, ◌&&◌, Option-cases, All, ap, ◌∙◌, ℕ_discrete, put, arith,
}
use cobble_companion.Vitality.{
  VitalityKind, stamina, energy, Tokens, whole, Wallets, Companions, max_safe_balance, column,
  set_column, get_balance, usable, update_balance, spend, add, after,
}

-- A statement that a node issues on a wallet.
pub data Change : Type 0 where
  spends adds : VitalityKind → ℕ → Tokens → Change

unfoldable pub apply : Change → Companions → Companions
apply (spends kind id tokens) db = after db (spend kind id tokens db)
apply (adds kind id tokens) db = after db (add kind id tokens db)

unfoldable pub apply_all : List Change → Companions → Companions
apply_all [] db = db
apply_all (c ∷ cs) db = apply_all cs (apply c db)

-- The amount that a guarded statement works with.
abbrev pub amount : Tokens → ℕ
amount (whole n) = n
amount _ = 0

abbrev pub same_kind : VitalityKind → VitalityKind → Bool
same_kind stamina stamina = true
same_kind energy energy = true
same_kind _ _ = false

-- A debit takes the amount from its own wallet, floored at 0, and touches no other.
spend_balance :
    (kind k : VitalityKind) (i j : ℕ) (t : Tokens) (db : Companions)
    → get_balance k j (after db (spend kind i t db))
      ≡ (if same_kind kind k && i == j then get_balance k j db - amount t else get_balance k j db)
unfolding spend usable get_balance update_balance put column set_column
spend_balance stamina stamina i j (whole n) db = ground arith
spend_balance stamina energy i j (whole n) db = ground arith
spend_balance energy stamina i j (whole n) db = ground arith
spend_balance energy energy i j (whole n) db = ground arith
spend_balance kind k i j t db = ground arith

-- A feed adds, where the companion exists, the amount to its own wallet, up to the ceiling, and touches
-- no other.
add_balance :
    (kind k : VitalityKind) (i j : ℕ) (t : Tokens) (db : Companions) (w : Wallets)
    → db j ≡ some w
    → get_balance k j db ≤ max_safe_balance
    → get_balance k j (after db (add kind i t db)) ≡ (
        if same_kind kind k && i == j
        then min max_safe_balance (get_balance k j db + amount t)
        else get_balance k j db)
unfolding add usable get_balance update_balance put column set_column
add_balance stamina stamina i j (whole n) db w e b = ground arith
add_balance stamina energy i j (whole n) db w e b = ground arith
add_balance energy stamina i j (whole n) db w e b = ground arith
add_balance energy energy i j (whole n) db w e b = ground arith
add_balance kind k i j t db w e b = ground arith

-- Every balance can be read back without loss.
abbrev pub Bounded : Companions → Type 0
Bounded db = (kind : VitalityKind) (id : ℕ) → get_balance kind id db ≤ max_safe_balance

add_missing :
    (kind : VitalityKind) (i : ℕ) (t : Tokens) (db : Companions)
    → db i ≡ none
    → after db (add kind i t db) ≡ db
unfolding add usable update_balance
add_missing kind i (whole n) db e = ground arith
add_missing kind i t db e = refl

missing_balance :
    (k : VitalityKind) (j : ℕ) (db : Companions) → db j ≡ none → get_balance k j db ≡ 0
unfolding get_balance
missing_balance k j db e = ground arith

add_elsewhere :
    (kind k : VitalityKind) (i j : ℕ) (t : Tokens) (db : Companions)
    → i ≢ j
    → get_balance k j (after db (add kind i t db)) ≡ get_balance k j db
unfolding add usable get_balance update_balance put
add_elsewhere kind k i j (whole n) db h = ground arith
add_elsewhere kind k i j t db h = refl

apply-Bounded : (c : Change) (db : Companions) → Bounded db → Bounded (apply c db)
unfolding apply
apply-Bounded (spends kind i t) db b k j = ground (arith, spend_balance kind k i j t db, b k j)
apply-Bounded (adds kind i t) db b k j = elim (Option-cases (db j)) [
  | inr (w, e) ↦ ground (arith, add_balance kind k i j t db w e (b k j), b k j)
  | inl e ↦ elim (ℕ_discrete i j) [
    | yes ij ↦ rw (add_missing kind i t db (ap db ij ∙ e)) (b k j)
    | no ne ↦ rw (add_elsewhere kind k i j t db ne) (b k j)
  ]
]

-- However debits and feeds of all the companions interleave, from balances that do not pass it: no
-- balance passes the largest number that the client reads back exactly.
apply_all-Bounded : (cs : List Change) (db : Companions) → Bounded db → Bounded (apply_all cs db)
unfolding apply_all
apply_all-Bounded [] db b = b
apply_all-Bounded (c ∷ cs) db b = apply_all-Bounded cs (apply c db) (apply-Bounded c db b)

-- What the debits, or the feeds, of one wallet come to.
abbrev pub debited : VitalityKind → ℕ → List Change → ℕ
debited k j [] = 0
debited k j (spends kind i t ∷ cs) =
    (if same_kind kind k && i == j then amount t else 0) + debited k j cs
debited k j (adds kind i t ∷ cs) = debited k j cs

abbrev pub fed : VitalityKind → ℕ → List Change → ℕ
fed k j [] = 0
fed k j (spends kind i t ∷ cs) = fed k j cs
fed k j (adds kind i t ∷ cs) = (if same_kind kind k && i == j then amount t else 0) + fed k j cs

abbrev pub is_spend : Change → Bool
is_spend (spends kind i t) = true
is_spend (adds kind i t) = false

-- Through a series of debits, whatever their order and whoever else is debited, a balance falls by
-- exactly the sum of its own debits, floored at 0.
pub debits_total :
    (k : VitalityKind) (j : ℕ) (cs : List Change) (db : Companions)
    → All (λ c. is_spend c ≡ true) cs
    → get_balance k j (apply_all cs db) ≡ get_balance k j db - debited k j cs
unfolding apply_all apply
debits_total k j [] db h = omega arith
debits_total k j (spends kind i t ∷ cs) db h =
    ground
      (arith, debits_total k j cs (apply (spends kind i t) db) h.1, spend_balance kind k i j t db)
debits_total k j (adds kind i t ∷ cs) db h = cc

add_keeps :
    (kind : VitalityKind) (i j : ℕ) (t : Tokens) (db : Companions) (w : Wallets)
    → db j ≡ some w
    → (w' : Wallets) × (after db (add kind i t db) j ≡ some w')
unfolding add usable update_balance put
add_keeps kind i j (whole n) db w e = (
  if ltb 0 n && i == j then set_column kind (min max_safe_balance (column kind w + n)) w else w,
  ground arith,
)
add_keeps kind i j t db w e = (w, e)

-- Through a series of feeds, from balances that do not pass the ceiling, the balance of a companion
-- that exists rises by exactly the sum of its own feeds, up to the ceiling.
pub feeds_total :
    (k : VitalityKind) (j : ℕ) (cs : List Change) (db : Companions) (w : Wallets)
    → db j ≡ some w
    → Bounded db
    → All (λ c. is_spend c ≡ false) cs
    → get_balance k j (apply_all cs db) ≡ min max_safe_balance (get_balance k j db + fed k j cs)
unfolding apply_all apply
feeds_total k j [] db w e b h = omega (arith, b k j)
feeds_total k j (spends kind i t ∷ cs) db w e b h = cc
feeds_total k j (adds kind i t ∷ cs) db w e b h =
    let (w', e') = add_keeps kind i j t db w e in
    ground (
      arith,
      b k j,
      feeds_total k j cs (apply (adds kind i t) db) w' e' (apply-Bounded (adds kind i t) db b) h.1,
      add_balance kind k i j t db w e (b k j),
    )
