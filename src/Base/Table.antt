-- ===== src/Base/Table.antt =====
-- A database table is the list of its rows, in insertion order. One statement reads or changes
-- the whole table at once, which is the atomicity that the stores rely on.
use Prim.Native.Nat.{ℕ, ◌+◌, ◌≤◌, ◌<◌}
use mathlib.Core.Logic.{inl, inr}
use mathlib.Core.Path.{◌≡◌, refl, sym, ap, ◌∙◌}
use mathlib.Core.List.{List, [], ◌∷◌, ◌++◌}
use mathlib.Core.Bool.{Bool, true, false, ◌||◌, ◌&&◌, not, false≢true}
use mathlib.Core.Option.{Option, none, some}
use native.Mathlib.Omega.{arith}
use cobble_companion.Base.Lists.{All, In}
use cobble_companion.Base.Tests.{some_inj, Bool-cases, ◌==◌, if◌then◌else◌}

module _ {ℓ} {A : Type ℓ} where
  -- SELECT … WHERE p
  unfoldable pub select_where : (A → Bool) → List A → List A
  select_where p [] = []
  select_where p (x ∷ xs) = let rest = select_where p xs in if p x then x ∷ rest else rest

  -- UPDATE … SET f WHERE p
  unfoldable pub update_where : (A → Bool) → (A → A) → List A → List A
  update_where p f [] = []
  update_where p f (x ∷ xs) = (if p x then f x else x) ∷ update_where p f xs

  -- DELETE … WHERE p
  unfoldable pub delete_where : (A → Bool) → List A → List A
  delete_where p [] = []
  delete_where p (x ∷ xs) = let rest = delete_where p xs in if p x then rest else x ∷ rest

  -- Whether a row satisfies p.
  unfoldable pub exists_where : (A → Bool) → List A → Bool
  exists_where p [] = false
  exists_where p (x ∷ xs) = p x || exists_where p xs

  -- SELECT … WHERE p LIMIT 1
  unfoldable pub find_where : (A → Bool) → List A → Option A
  find_where p [] = none
  find_where p (x ∷ xs) = let rest = find_where p xs in if p x then some x else rest

  -- SELECT count(*) WHERE p
  unfoldable pub count_where : (A → Bool) → List A → ℕ
  count_where p [] = 0
  count_where p (x ∷ xs) = (if p x then 1 else 0) + count_where p xs

  pub count_where-append :
      (p : A → Bool) (xs ys : List A)
      → count_where p (xs ++ ys) ≡ count_where p xs + count_where p ys
  unfolding count_where
  count_where-append p [] ys = omega arith
  count_where-append p (x ∷ xs) ys = omega (arith, count_where-append p xs ys)

  pub count_where-snoc :
      (p : A → Bool) (xs : List A) (x : A)
      → count_where p (xs ++ (x ∷ [])) ≡ count_where p xs + (if p x then 1 else 0)
  unfolding count_where
  count_where-snoc p [] x = omega arith
  count_where-snoc p (y ∷ xs) x = omega (arith, count_where-snoc p xs x)

  pub count_where-eq_zero :
      (p : A → Bool) (xs : List A) → exists_where p xs ≡ false → count_where p xs ≡ 0
  unfolding count_where exists_where
  count_where-eq_zero p [] h = refl
  count_where-eq_zero p (x ∷ xs) h = ground (arith, count_where-eq_zero p xs)

  -- An update under which no row newly satisfies q leaves at most as many rows with q.
  pub count_where-update_where-le :
      (q p : A → Bool) (f : A → A)
      → ((x : A) → p x ≡ true → q (f x) ≡ true → q x ≡ true)
      → (xs : List A) → count_where q (update_where p f xs) ≤ count_where q xs
  unfolding count_where update_where
  count_where-update_where-le q p f h [] = omega arith
  count_where-update_where-le q p f h (x ∷ xs) =
      ground (arith, h x, count_where-update_where-le q p f h xs)

  pub find_where-eq_none :
      (p : A → Bool) (xs : List A) → exists_where p xs ≡ false → find_where p xs ≡ none
  unfolding find_where exists_where
  find_where-eq_none p [] h = refl
  find_where-eq_none p (x ∷ xs) h = ground (arith, find_where-eq_none p xs)

  -- An update whose condition no row meets changes nothing.
  pub update_where-eq_self :
      (p : A → Bool) (f : A → A) (xs : List A)
      → exists_where p xs ≡ false
      → update_where p f xs ≡ xs
  unfolding update_where exists_where
  update_where-eq_self p f [] h = refl
  update_where-eq_self p f (x ∷ xs) h = ground (arith, update_where-eq_self p f xs)

  pub find_where-append :
      (p : A → Bool) (xs ys : List A)
      → exists_where p xs ≡ false
      → find_where p (xs ++ ys) ≡ find_where p ys
  unfolding find_where exists_where
  find_where-append p [] ys h = refl
  find_where-append p (x ∷ xs) ys h = ground (arith, find_where-append p xs ys)

  pub count_where-pos :
      (p : A → Bool) (xs : List A) → exists_where p xs ≡ true → 1 ≤ count_where p xs
  unfolding count_where exists_where
  count_where-pos p [] h = cc
  count_where-pos p (x ∷ xs) h = ground (arith, count_where-pos p xs)

  pub count_where-update_where_self :
      (p : A → Bool) (f : A → A)
      → ((x : A) → p x ≡ true → p (f x) ≡ true)
      → (xs : List A) → count_where p (update_where p f xs) ≡ count_where p xs
  unfolding count_where update_where
  count_where-update_where_self p f h [] = refl
  count_where-update_where_self p f h (x ∷ xs) =
      ground (arith, h x, count_where-update_where_self p f h xs)

module _ {ℓ} {A : Type ℓ} where
  abbrev pub map_option {κ} : {B : Type κ} → (A → B) → Option A → Option B
  map_option f none = none
  map_option f (some a) = some (f a)

  pub find_where-update_where_self :
      (p : A → Bool) (f : A → A)
      → ((x : A) → p x ≡ true → p (f x) ≡ true)
      → (xs : List A) → find_where p (update_where p f xs) ≡ map_option f (find_where p xs)
  unfolding find_where update_where
  find_where-update_where_self p f h [] = refl
  find_where-update_where_self p f h (x ∷ xs) =
      ground (arith, h x, find_where-update_where_self p f h xs)

  pub find_where-eq_some :
      (p : A → Bool) (xs : List A) → exists_where p xs ≡ true → (x : A) × (find_where p xs ≡ some x)
  unfolding find_where exists_where
  find_where-eq_some p [] h = cc
  find_where-eq_some p (x ∷ xs) h = elim (Bool-cases (p x)) [
    | inl e ↦ (x, rw e refl)
    | inr e ↦ let (y, found) = find_where-eq_some p xs (rw e at h) in (y, rw e found)
  ]

module _ {A : Type 0} where
  pub All-select_where : (p : A → Bool) (xs : List A) → All (λ x. p x ≡ true) (select_where p xs)
  unfolding select_where
  All-select_where p [] = tt
  All-select_where p (x ∷ xs) = elim (Bool-cases (p x)) [
    | inl e ↦ rw e (e, All-select_where p xs)
    | inr e ↦ rw e (All-select_where p xs)
  ]

  pub In-select_where : (p : A → Bool) (xs : List A) (a : A) → In a (select_where p xs) → In a xs
  unfolding select_where
  In-select_where p [] a m = m
  In-select_where p (x ∷ xs) a m = elim (Bool-cases (p x)) [
    | inl e ↦ elim (rw e at m) [ inl h ↦ inl h | inr h ↦ inr (In-select_where p xs a h) ]
    | inr e ↦ inr (In-select_where p xs a (rw e at m))
  ]

  pub exists_where-select_where :
      (p : A → Bool) (xs : List A) → select_where p xs ≡ [] → exists_where p xs ≡ false
  unfolding select_where exists_where
  exists_where-select_where p [] h = refl
  exists_where-select_where p (x ∷ xs) h = ground (arith, exists_where-select_where p xs)

  pub exists_where_of_In :
      (p : A → Bool) (xs : List A) (a : A) → In a xs → p a ≡ true → exists_where p xs ≡ true
  unfolding exists_where
  exists_where_of_In p [] a m h = absurd m
  exists_where_of_In p (x ∷ xs) a (inl e) h = ground arith
  exists_where_of_In p (x ∷ xs) a (inr m) h = ground (arith, exists_where_of_In p xs a m h)

  -- An update after which no touched row satisfies q, and that touches one that did.
  pub count_where-update_where-lt :
      (q p : A → Bool) (f : A → A) (xs : List A) (a : A)
      → ((x : A) → q (f x) ≡ false)
      → In a xs
      → p a ≡ true
      → q a ≡ true
      → count_where q (update_where p f xs) < count_where q xs
  unfolding count_where update_where
  count_where-update_where-lt q p f [] a h m pa qa = absurd m
  count_where-update_where-lt q p f (x ∷ xs) a h (inl e) pa qa = ground (
    arith,
    h x,
    ap p e,
    ap q e,
    count_where-update_where-le q p f (λ y u v. absurd (false≢true (sym (h y) ∙ v))) xs,
  )
  count_where-update_where-lt q p f (x ∷ xs) a h (inr m) pa qa =
      ground (arith, h x, count_where-update_where-lt q p f xs a h m pa qa)

  pub count_where_of_In :
      (p : A → Bool) (xs : List A) (a : A) → count_where p xs ≡ 0 → In a xs → p a ≡ false
  unfolding count_where
  count_where_of_In p [] a h m = absurd m
  count_where_of_In p (x ∷ xs) a h (inl e) = ground (arith, ap p e)
  count_where_of_In p (x ∷ xs) a h (inr m) = count_where_of_In p xs a (ground arith) m

  pub count_where-select_where :
      (p : A → Bool) (xs : List A) → select_where p xs ≡ [] → count_where p xs ≡ 0
  count_where-select_where p xs h = count_where-eq_zero p xs (exists_where-select_where p xs h)

  pub update_where-zero :
      (p : A → Bool) (f : A → A) (xs : List A) → count_where p xs ≡ 0 → update_where p f xs ≡ xs
  unfolding update_where count_where
  update_where-zero p f [] h = refl
  update_where-zero p f (x ∷ xs) h = ground (arith, update_where-zero p f xs)

  -- The effect of an update on a count, where its condition picks one row.
  pub count_where-update_where-one :
      (q p : A → Bool) (f : A → A) (m : A) (xs : List A)
      → count_where p xs ≤ 1
      → find_where p xs ≡ some m
      → count_where q (update_where p f xs) + (if q m then 1 else 0)
        ≡ count_where q xs + (if q (f m) then 1 else 0)
  unfolding update_where count_where find_where
  count_where-update_where-one q p f m [] u e = cc
  count_where-update_where-one q p f m (x ∷ xs) u e = elim (Bool-cases (p x)) [
    | inl px ↦ ground (
      arith,
      ap q (some_inj (rw px at e)),
      ap (λ y. q (f y)) (some_inj (rw px at e)),
      ap (count_where q) (update_where-zero p f xs (ground arith)),
    )
    | inr px ↦ ground (arith, count_where-update_where-one q p f m xs)
  ]

  count_where-others :
      (q p : A → Bool) (xs : List A)
      → count_where p xs ≡ 0
      → exists_where (λ x. not (p x) && q x) xs ≡ false
      → count_where q xs ≡ 0
  unfolding count_where exists_where
  count_where-others q p [] u h = refl
  count_where-others q p (x ∷ xs) u h = ground (arith, count_where-others q p xs)

  -- Where no other row satisfies q, its count is that of the one row.
  pub count_where-one :
      (q p : A → Bool) (m : A) (xs : List A)
      → count_where p xs ≤ 1
      → find_where p xs ≡ some m
      → exists_where (λ x. not (p x) && q x) xs ≡ false
      → count_where q xs ≡ (if q m then 1 else 0)
  unfolding count_where find_where exists_where
  count_where-one q p m [] u e h = cc
  count_where-one q p m (x ∷ xs) u e h = elim (Bool-cases (p x)) [
    | inl px ↦ ground (arith, ap q (some_inj (rw px at e)), count_where-others q p xs)
    | inr px ↦ ground (arith, count_where-one q p m xs)
  ]

-- A table keyed by a primary key, as the function from keys to rows.
module _ {ℓ} {V : Type ℓ} where
  unfoldable pub put : ℕ → Option V → (ℕ → Option V) → ℕ → Option V
  put k v m j = if j == k then v else m j

  pub put_self : (k : ℕ) (v : Option V) (m : ℕ → Option V) → put k v m k ≡ v
  unfolding put
  put_self k v m = ground arith
