-- ===== src/Ingestion/Covering.antt =====
-- The sections of a source cover its paragraphs, each of them once and in their order.
use cobble_companion.Base.{
  ℕ, zero, suc, ◌+◌, ◌-◌, ◌*◌, ◌≤◌, min, ◌≡◌, refl, sym, ap, ◌∙◌, subst, Bool, true, false, not,
  ◌||◌, ◌==◌, ltb, Bool-cases, Option-cases, inl, inr, Option, none, some, some_inj, Text, List, [],
  ◌∷◌, ◌++◌, length, length-append, trim, is_empty, arith,
}
use mathlib.Core.List.{append_assoc}
use cobble_companion.Ingestion.Segmenter.{
  Paragraph, SectionBoundary, fallback_section_size, render_paragraph, is_full, batches_from,
  batch_paragraphs, render_batch, RawSection, section_of, boundaries_from, parse_boundaries,
  passages, fallback_boundaries, last_ord, or_else, segment_batch, segment_batches,
  segment_paragraphs,
}

-- Sections that follow one another from `next` up to `stop`, which is left out; none of them is empty.
abbrev pub Covers : ℕ → List SectionBoundary → ℕ → Type 0
Covers next [] stop = next ≡ stop
Covers next (b ∷ bs) stop =
    (b.para_start ≡ next) × (b.para_start ≤ b.para_end) × Covers (suc b.para_end) bs stop

Covers-append :
    (a m z : ℕ) (bs cs : List SectionBoundary)
    → Covers a bs m
    → Covers m cs z
    → Covers a (bs ++ cs) z
Covers-append a m z [] cs h k = subst (λ n. Covers n cs z) (sym h) k
Covers-append a m z (b ∷ bs) cs (s, o, h) k = (s, o, Covers-append (suc b.para_end) m z bs cs h k)

passages_over : (fuel start last : ℕ) → suc last ≤ start → passages fuel start last ≡ []
unfolding passages
passages_over zero start last h = refl
passages_over (suc fuel) start last h = ground arith

passages-Covers :
    (fuel start last : ℕ)
    → start ≤ suc last
    → suc last ≤ start + fuel
    → Covers start (passages fuel start last) (suc last)
unfolding passages
passages-Covers zero start last h k = omega arith
passages-Covers (suc fuel) start last h k = elim (Bool-cases (ltb last start)) [
  | inl over ↦ rw over (ground arith)
  | inr within ↦
      let rest = passages fuel (start + fallback_section_size) last in
      let end = min (start + fallback_section_size - 1) last in
      let tail : Covers (suc end) rest (suc last) = elim (Bool-cases (ltb last (start + 5))) [
        | inl cut ↦
            rw (passages_over fuel (start + fallback_section_size) last (ground arith))
              (ground arith)
        | inr whole ↦
            subst (λ n. Covers n rest (suc last)) (ground arith)
              (passages-Covers fuel (start + fallback_section_size) last (ground arith)
                (ground arith))
      ] in
      rw within (refl, ground arith, tail)
]

-- The tests that a section of the answer has passed.
or_false : (a b : Bool) → (a || b) ≡ false → (a ≡ false) × (b ≡ false)
or_false true b h = absurd cc
or_false false b h = (refl, h)

section_of-Some :
    (expected last : ℕ) (topic : Option Text) (start end : Option ℕ) (b : SectionBoundary)
    → section_of expected last topic start end ≡ some b
    → (b.para_start ≡ expected) × (b.para_start ≤ b.para_end) × (b.para_end ≤ last)
unfolding section_of
section_of-Some expected last none start end b h = absurd cc
section_of-Some expected last (some t) none end b h = absurd cc
section_of-Some expected last (some t) (some start) none b h = absurd cc
section_of-Some expected last (some t) (some start) (some end) b h =
    let blank = is_empty (trim t) in
    let moved = not (start == expected) in
    let back = ltb end start in
    elim (Bool-cases (blank || moved || back || ltb last end)) [
      | inl refused ↦ let clash = rw refused at h in absurd cc
      | inr passes ↦
          let made = some_inj (rw passes at h) in
          let (three, within) = or_false (blank || moved || back) (ltb last end) passes in
          let (two, ahead) = or_false (blank || moved) back three in
          let (_, stays) = or_false blank moved two in
          subst (λ c. (c.para_start ≡ expected) × (c.para_start ≤ c.para_end) × (c.para_end ≤ last))
            made (ground arith, ground arith, ground arith)
    ]

boundaries_from-Covers :
    (expected last : ℕ) (ss : List RawSection) (bs : List SectionBoundary)
    → boundaries_from 1 expected last ss ≡ some bs
    → Covers expected bs (suc last)
unfolding boundaries_from
boundaries_from-Covers expected last [] bs h = elim (Bool-cases (expected == last + 1)) [
  | inl e ↦
      let none_left = some_inj (rw e at h) in
      subst (λ cs. Covers expected cs (suc last)) none_left (ground arith)
  | inr short ↦ let clash = rw short at h in absurd cc
]
boundaries_from-Covers expected last (s ∷ ss) bs h =
    elim (Option-cases (section_of expected last s.topic s.start s.end)) [
      | inl refused ↦ let clash = rw refused at h in absurd cc
      | inr (b, e) ↦
          let (starts, ordered, _) = section_of-Some expected last s.topic s.start s.end b e in
          elim (Option-cases (boundaries_from 1 (b.para_end + 1) last ss)) [
            | inl refused ↦ let clash = rw (e, refused) at h in absurd cc
            | inr (cs, more) ↦
                let made = some_inj (rw (e, more) at h) in
                let rest = boundaries_from-Covers (b.para_end + 1) last ss cs more in
                subst (λ ds. Covers expected ds (suc last)) made
                  (starts, ordered, subst (λ n. Covers n cs (suc last)) (omega arith) rest)
          ]
    ]

-- Paragraphs that are numbered one after the other, from `n`.
abbrev pub Consecutive : ℕ → List Paragraph → Type 0
Consecutive n [] = Unit
Consecutive n (p ∷ ps) = (p.ord ≡ n) × Consecutive (suc n) ps

last_ord-Consecutive :
    (n : ℕ) (ps : List Paragraph) → Consecutive (suc n) ps → last_ord n ps ≡ n + length ps
last_ord-Consecutive n [] h = omega arith
last_ord-Consecutive n (p ∷ ps) (e, h) = rw e (omega (arith, last_ord-Consecutive (suc n) ps h))

Consecutive-append :
    (n : ℕ) (ps qs : List Paragraph)
    → Consecutive n (ps ++ qs)
    → Consecutive n ps × Consecutive (n + length ps) qs
Consecutive-append n [] qs h = (tt, subst (λ m. Consecutive m qs) (omega arith) h)
Consecutive-append n (p ∷ ps) qs (e, h) =
    let (front, back) = Consecutive-append (suc n) ps qs h in
    ((e, front), subst (λ m. Consecutive m qs) (omega arith) back)

parse_boundaries-Covers :
    (first last : ℕ) (answer : Option (List RawSection)) (bs : List SectionBoundary)
    → parse_boundaries 1 answer first last ≡ some bs
    → Covers first bs (suc last)
unfolding parse_boundaries
parse_boundaries-Covers first last none bs h = absurd cc
parse_boundaries-Covers first last (some []) bs h = absurd cc
parse_boundaries-Covers first last (some (s ∷ ss)) bs h =
    let whole : boundaries_from 1 first last (s ∷ ss) ≡ some bs =
      subst (λ n. boundaries_from 1 n last (s ∷ ss) ≡ some bs) (omega arith)
        (subst (λ n. boundaries_from 1 (first * 1) n (s ∷ ss) ≡ some bs) (omega arith) h) in
    boundaries_from-Covers first last (s ∷ ss) bs whole

or_else-Covers :
    (first last : ℕ) (answer : Option (List RawSection))
    → first ≤ last
    → Covers first
        (or_else (parse_boundaries 1 answer first last) (fallback_boundaries first last))
        (suc last)
unfolding fallback_boundaries
or_else-Covers first last answer h = elim (Option-cases (parse_boundaries 1 answer first last)) [
  | inl unusable ↦
      rw unusable (passages-Covers (suc last - first) first last (omega arith) (omega arith))
  | inr (bs, e) ↦ rw e (parse_boundaries-Covers first last answer bs e)
]

segment_batch-Covers :
    (ask : Text → Option (List RawSection)) (n : ℕ) (batch : List Paragraph)
    → Consecutive n batch
    → Covers n (segment_batch ask batch) (n + length batch)
unfolding segment_batch
segment_batch-Covers ask n [] h = omega arith
segment_batch-Covers ask n (p ∷ ps) (e, h) =
    let ends = last_ord-Consecutive n ps h in
    subst
      (λ o.
        Covers n
          (or_else (parse_boundaries 1 (ask (render_batch (p ∷ ps))) o (last_ord o ps))
            (fallback_boundaries o (last_ord o ps)))
          (n + suc (length ps)))
      (sym e)
      (subst
        (Covers n (
          or_else (parse_boundaries 1 (ask (render_batch (p ∷ ps))) n (last_ord n ps))
            (fallback_boundaries n (last_ord n ps))))
        (omega arith)
        (or_else-Covers n (last_ord n ps) (ask (render_batch (p ∷ ps))) (omega arith)))

unfoldable flat : List (List Paragraph) → List Paragraph
flat [] = []
flat (b ∷ bs) = b ++ flat bs

segment_batches-Covers :
    (ask : Text → Option (List RawSection)) (n : ℕ) (bs : List (List Paragraph))
    → Consecutive n (flat bs)
    → Covers n (segment_batches ask bs) (n + length (flat bs))
unfolding segment_batches flat
segment_batches-Covers ask n [] h = omega arith
segment_batches-Covers ask n (b ∷ bs) h =
    let (here, rest) = Consecutive-append n b (flat bs) h in
    Covers-append n (n + length b) _ _ _ (segment_batch-Covers ask n b here) (
      subst (Covers (n + length b) (segment_batches ask bs))
        (omega (arith, length-append b (flat bs)))
        (segment_batches-Covers ask (n + length b) bs rest))

-- No paragraph is lost between the batches.
flat-batches_from :
    (current : List Paragraph) (chars : ℕ) (ps : List Paragraph)
    → flat (batches_from current chars ps) ≡ current ++ ps
unfolding batches_from flat
flat-batches_from [] chars [] = refl
flat-batches_from (c ∷ cs) chars [] = refl
flat-batches_from current chars (p ∷ ps) =
    let cost = length (render_paragraph p) + 2 in
    elim (Bool-cases (is_full current (chars + cost))) [
      | inl full ↦ rw full (ap (λ qs. current ++ qs) (flat-batches_from (p ∷ []) cost ps))
      | inr room ↦ rw room (
          flat-batches_from (current ++ p ∷ []) (chars + cost) ps
          ∙ append_assoc current (p ∷ []) ps)
    ]

-- For paragraphs numbered one after the other from `n`, whatever sections with whole numbers the
-- model answers, usable or not, the sections of the source start at `n`, none of them is empty, each
-- starts right after the end of the one before, and the last ends with the last paragraph.
pub segment_paragraphs-Covers :
    (ask : Text → Option (List RawSection)) (n : ℕ) (ps : List Paragraph)
    → Consecutive n ps
    → Covers n (segment_paragraphs ask ps) (n + length ps)
unfolding segment_paragraphs batch_paragraphs
segment_paragraphs-Covers ask n ps h =
    let all = flat-batches_from [] 0 ps in
    subst (λ qs. Covers n (segment_batches ask (batches_from [] 0 ps)) (n + length qs)) all
      (segment_batches-Covers ask n (batches_from [] 0 ps) (subst (Consecutive n) (sym all) h))
