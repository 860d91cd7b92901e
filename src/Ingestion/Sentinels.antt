-- ===== src/Ingestion/Sentinels.antt =====
-- No sentinel is left in a text that was stripped of them.
use cobble_companion.Base.{
  ℕ, zero, suc, ◌-◌, ◌≤◌, ◌<◌, ◌≡◌, refl, ap, Bool, true, false, ◌||◌, Bool-cases, inl, inr, ◌⊎◌,
  Text, text_eq, text_eq_iff, [], ◌∷◌, length, arith,
}
use cobble_companion.Ingestion.Untrusted.{
  untrusted_open, untrusted_close, starts_with, remove, strip_once, strip_until, strip_sentinels,
}

-- Whether a text stands somewhere in another one.
unfoldable pub occurs : Text → Text → Bool
unfolding starts_with
occurs pattern [] = starts_with pattern []
occurs pattern (x ∷ xs) = starts_with pattern (x ∷ xs) || occurs pattern xs

length-remove-le : (p : Text) (skip : ℕ) (t : Text) → length (remove p skip t) ≤ length t
unfolding remove
length-remove-le p skip [] = omega arith
length-remove-le p (suc skip) (x ∷ xs) = omega (arith, length-remove-le p skip xs)
length-remove-le p zero (x ∷ xs) =
    ground (arith, length-remove-le p (length p - 1) xs, length-remove-le p 0 xs)

-- A text in which the pattern occurs gets shorter.
length-remove-lt :
    (q : ℕ) (p t : Text) → occurs (q ∷ p) t ≡ true → length (remove (q ∷ p) 0 t) < length t
unfolding occurs remove
length-remove-lt q p [] h = unfold starts_with in cc
length-remove-lt q p (x ∷ xs) h = elim (Bool-cases (starts_with (q ∷ p) (x ∷ xs))) [
  | inl s ↦ rw s (omega (arith, length-remove-le (q ∷ p) (suc (length p) - 1) xs))
  | inr s ↦ rw s (omega (arith, length-remove-lt q p xs (rw s at h)))
]

-- One in which it does not is left as it is.
remove_absent : (q : ℕ) (p t : Text) → occurs (q ∷ p) t ≡ false → remove (q ∷ p) 0 t ≡ t
unfolding occurs remove
remove_absent q p [] h = refl
remove_absent q p (x ∷ xs) h = elim (Bool-cases (starts_with (q ∷ p) (x ∷ xs))) [
  | inl s ↦ let clash = rw s at h in cc
  | inr s ↦ rw s (ap (λ t. x ∷ t) (remove_absent q p xs (rw s at h)))
]

-- Two removals in a row: the text gets shorter, or neither pattern occurs and it is left as it is.
remove-remove :
    (q : ℕ) (p : Text) (q' : ℕ) (p' t : Text)
    → let s = remove (q' ∷ p') 0 (remove (q ∷ p) 0 t) in
      (length s < length t) ⊎ (s ≡ t) × (occurs (q ∷ p) t ≡ false) × (occurs (q' ∷ p') t ≡ false)
remove-remove q p q' p' t = elim (Bool-cases (occurs (q ∷ p) t)) [
  | inl o ↦
      let first = length-remove-lt q p t o in
      let second = length-remove-le (q' ∷ p') 0 (remove (q ∷ p) 0 t) in inl (omega arith)
  | inr o ↦ elim (Bool-cases (occurs (q' ∷ p') t)) [
    | inl o' ↦ inl (rw (remove_absent q p t o) (length-remove-lt q' p' t o'))
    | inr o' ↦ inr (rw (remove_absent q p t o) (remove_absent q' p' t o'), o, o')
  ]
]

strip_once_cases :
    (t : Text)
    → (length (strip_once t) < length t)
      ⊎ (strip_once t ≡ t) × (occurs untrusted_close t ≡ false) × (occurs untrusted_open t ≡ false)
unfolding strip_once
strip_once_cases t = remove-remove _ _ _ _ t

-- A pass that changes nothing found no sentinel.
strip_once_absent :
    (t : Text)
    → strip_once t ≡ t
    → (occurs untrusted_close t ≡ false) × (occurs untrusted_open t ≡ false)
strip_once_absent t h = elim (strip_once_cases t) [
  | inl shorter ↦ let same = ap length h in absurd (omega arith)
  | inr (same, no_close, no_open) ↦ (no_close, no_open)
]

-- A pass that changes something makes the text shorter.
strip_once_lt : (t : Text) → text_eq (strip_once t) t ≡ false → length (strip_once t) < length t
strip_once_lt t h = elim (strip_once_cases t) [
  | inl shorter ↦ shorter
  | inr (same, _, _) ↦ let e = (text_eq_iff (strip_once t) t).1 same in absurd cc
]

strip_until_absent :
    (fuel : ℕ) (t : Text)
    → length t < fuel
    → let s = strip_until fuel t in
      (occurs untrusted_close s ≡ false) × (occurs untrusted_open s ≡ false)
unfolding strip_until
strip_until_absent zero t h = absurd (omega arith)
strip_until_absent (suc fuel) t h = elim (Bool-cases (text_eq (strip_once t) t)) [
  | inl e ↦ rw (e, strip_until) (strip_once_absent t ((text_eq_iff (strip_once t) t).0 e))
  | inr e ↦
      let shorter = strip_once_lt t e in
      rw (e, strip_until) (strip_until_absent fuel (strip_once t) (omega arith))
]

-- Neither sentinel stands in a text that was stripped of them, however fragments of them are spliced.
pub strip_sentinels_absent :
    (t : Text)
    → let s = strip_sentinels t in
      (occurs untrusted_close s ≡ false) × (occurs untrusted_open s ≡ false)
unfolding strip_sentinels
strip_sentinels_absent t = strip_until_absent (suc (length t)) t (omega arith)
