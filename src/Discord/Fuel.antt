-- ===== src/Discord/Fuel.antt =====
-- The loop over the leading mentions of a trigger has enough fuel.
use cobble_companion.Base.{
  ℕ, zero, suc, ◌≤◌, ◌<◌, ◌≡◌, refl, Bool, true, false, ◌&&◌, none, some, some_inj, ◌==◌,
  Option-cases, Bool-cases, inl, inr, Text, [], ◌∷◌, length, trim_start, arith,
}
use cobble_companion.Discord.Trigger.{
  is_digit, close_mention, after_at, after_mention, strip_mentions,
}

length-trim_start : (t : Text) → length (trim_start t) ≤ length t
unfolding trim_start
length-trim_start [] = omega arith
length-trim_start (x ∷ xs) = ground (arith, length-trim_start xs)

close_mention-shorter :
    (seen : Bool) (t r : Text) → close_mention seen t ≡ some r → length r ≤ length t
unfolding close_mention
close_mention-shorter seen [] r h = cc
close_mention-shorter seen (x ∷ xs) r h = elim (Bool-cases (is_digit x)) [
  | inl d ↦ let shorter = close_mention-shorter true xs r (rw d at h) in omega (arith, shorter)
  | inr d ↦ elim (Bool-cases (seen && x == 62)) [
    | inl c ↦ let cut = some_inj (rw (d, c) at h) in ground (arith, cut, length-trim_start xs)
    | inr c ↦ let clash = rw (d, c) at h in cc
  ]
]

after_mention-shorter : (t r : Text) → after_mention t ≡ some r → length r < length t
unfolding after_mention after_at
after_mention-shorter [] r h = cc
after_mention-shorter (x ∷ []) r h = cc
after_mention-shorter (x ∷ y ∷ []) r h = ground (arith, h)
after_mention-shorter (x ∷ y ∷ z ∷ zs) r h =
    ground (arith, h, close_mention-shorter false zs r, close_mention-shorter false (z ∷ zs) r)

-- With one unit of fuel for each unit of text, no mention is left at the head.
pub strip_mentions-done :
    (fuel : ℕ) (t : Text) → length t ≤ fuel → after_mention (strip_mentions fuel t) ≡ none
unfolding strip_mentions
strip_mentions-done zero [] h = unfold after_mention in refl
strip_mentions-done zero (x ∷ xs) h = absurd (omega arith)
strip_mentions-done (suc fuel) t h = elim (Option-cases (after_mention t)) [
  | inl e ↦ rw (e, strip_mentions) e
  | inr (r, e) ↦
      let shorter = after_mention-shorter t r e in
      rw (e, strip_mentions) (strip_mentions-done fuel r (omega arith))
]
