-- ===== src/UrlGuard/Groups.antt =====
-- What an IPv6 literal parses to.
use cobble_companion.Base.{
  ℕ, zero, suc, ◌+◌, ◌-◌, ◌≤◌, ◌≡◌, refl, ap, subst, inl, inr, true, Option, none, some, some_inj,
  List, [], ◌∷◌, ◌++◌, Text, codes, length, replicate, length-append, All, Bool-cases, Option-cases,
  arith,
}
use cobble_companion.UrlGuard.Text.{
  is_digit, is_hex_digit, is_run, hex_value, number_from, split_double_colon, split,
}
use cobble_companion.UrlGuard.Addresses.{
  groups_of, expand, numbers, numbers_of, parse_working, parse_ipv6, rewrite_tail, first_part,
}

hex_value_le : (x : ℕ) → is_hex_digit x ≡ true → hex_value x ≤ 15
unfolding is_hex_digit is_digit hex_value
hex_value_le x h = ground arith

-- Four hexadecimal digits make 16 bits.
run_le : (w : Text) → is_run is_hex_digit 4 w ≡ true → number_from hex_value 16 0 w ≤ 65535
unfolding is_run number_from
run_le [] h = omega arith
run_le (x ∷ []) h = ground (arith, hex_value_le x)
run_le (x ∷ y ∷ []) h = ground (arith, hex_value_le x, hex_value_le y)
run_le (x ∷ y ∷ z ∷ []) h = ground (arith, hex_value_le x, hex_value_le y, hex_value_le z)
run_le (x ∷ y ∷ z ∷ u ∷ []) h =
    ground (arith, hex_value_le x, hex_value_le y, hex_value_le z, hex_value_le u)
run_le (x ∷ y ∷ z ∷ u ∷ v ∷ w) h = ground arith

numbers_lem :
    (ws : List Text) (gs : List ℕ)
    → numbers ws ≡ some gs
    → (length gs ≡ length ws) × All (λ g. g ≤ 65535) gs
unfolding numbers
numbers_lem [] gs h =
    subst (λ ns. (length ns ≡ 0) × All (λ g. g ≤ 65535) ns) (some_inj h) (refl, tt)
numbers_lem (w ∷ ws) gs h = elim (Option-cases (numbers ws)) [
  | inl e ↦ absurd (some_is_none (rw (e, numbers) at h))
  | inr (ns, e) ↦ elim (Bool-cases (is_run is_hex_digit 4 w)) [
    | inr bad ↦ absurd (some_is_none (rw bad at (rw (e, numbers) at h)))
    | inl good ↦
        let (same, small) = numbers_lem ws ns e in
        subst (λ gs. (length gs ≡ suc (length ws)) × All (λ g. g ≤ 65535) gs)
          (some_inj (rw good at (rw (e, numbers) at h))) (ap suc same, (run_le w good, small))
  ]
]
  where
    some_is_none : {gs : List ℕ} → none ≡ some gs → ⊥
    some_is_none h = cc

length-replicate_text : (n : ℕ) (w : Text) → length (replicate n w) ≡ n
length-replicate_text zero w = refl
length-replicate_text (suc n) w = omega (arith, length-replicate_text n w)

expand_lem : (halves ws : List Text) → expand halves ≡ some ws → length ws ≡ 8
unfolding expand
expand_lem [] ws h = cc
expand_lem (half ∷ []) ws h = ground arith
expand_lem (f ∷ t ∷ []) ws h = ground (
  arith,
  length-append (groups_of f)
      (replicate (8 - (length (groups_of f) + length (groups_of t))) (codes "0") ++ groups_of t),
  length-append (replicate (8 - (length (groups_of f) + length (groups_of t))) (codes "0"))
      (groups_of t),
  length-replicate_text (8 - (length (groups_of f) + length (groups_of t))) (codes "0"),
)
expand_lem (f ∷ t ∷ u ∷ rest) ws h = cc

working_lem :
    (working : Option Text) (gs : List ℕ)
    → parse_working working ≡ some gs
    → (length gs ≡ 8) × All (λ g. g ≤ 65535) gs
unfolding parse_working numbers_of
working_lem none gs h = cc
working_lem (some working) gs h = elim (Option-cases (expand (split_double_colon working))) [
  | inl e ↦ absurd (some_is_none (rw (e, numbers_of) at h))
  | inr (ws, e) ↦
      let (same, small) = numbers_lem ws gs (rw (e, numbers_of) at h) in
      (omega (arith, same, expand_lem (split_double_colon working) ws e), small)
]
  where
    some_is_none : {gs : List ℕ} → none ≡ some gs → ⊥
    some_is_none h = cc

-- A literal that parses as IPv6 gives eight groups of 16 bits, whatever text it is.
parse_ipv6-bounds :
    (literal : Text) (gs : List ℕ)
    → parse_ipv6 literal ≡ some gs
    → (length gs ≡ 8) × All (λ g. g ≤ 65535) gs
unfolding parse_ipv6
parse_ipv6-bounds literal gs h = parts (first_part (split 37 literal)) refl
  where
    parts :
        (address : Text)
        → first_part (split 37 literal) ≡ address
        → (length gs ≡ 8) × All (λ g. g ≤ 65535) gs
    parts [] e = absurd (some_is_none (rw (e, parse_ipv6) at h))
      where
        some_is_none : none ≡ some gs → ⊥
        some_is_none k = cc
    parts (x ∷ xs) e = working_lem (rewrite_tail (x ∷ xs)) gs (rw (e, parse_ipv6) at h)
