-- ===== src/Ingestion/Segmenter.antt =====
-- core/src/ingestion/segmenter.ts: paragraphs in batches, and the sections that a model marks in each of them.
use cobble_companion.Base.{
  ℕ, zero, suc, ◌+◌, ◌-◌, ◌*◌, ◌/◌, ◌%◌, min, Bool, false, not, ◌||◌, ◌==◌, ltb, leb, if◌then◌else◌,
  Option, none, some, Text, codes, List, [], ◌∷◌, ◌++◌, length, take, trim, is_empty,
}
use cobble_companion.Ingestion.Untrusted.{max_ingestion_prompt_chars, strip_sentinels}

pub record Paragraph : Type 0 where
  pub ord : ℕ
  pub text : Text

pub record SectionBoundary : Type 0 where
  pub topic_title : Text
  pub para_start : ℕ
  pub para_end : ℕ

abbrev pub batch_size : ℕ
batch_size = 150

abbrev pub fallback_section_size : ℕ
fallback_section_size = 6

-- A number in decimals, with fuel for its digits.
unfoldable pub digits : ℕ → ℕ → Text
digits zero n = []
digits (suc fuel) n =
    let front = digits fuel (n / 10) in
    if ltb n 10 then (48 + n) ∷ [] else front ++ ((48 + n % 10) ∷ [])

unfoldable pub shown : ℕ → Text
unfolding digits
shown n = digits (suc n) n

unfoldable pub render_paragraph : Paragraph → Text
unfolding shown strip_sentinels
render_paragraph p = codes "[" ++ shown p.ord ++ codes "] " ++ strip_sentinels p.text

-- A batch that takes no further paragraph: `chars` are its characters with that one's.
unfoldable pub is_full : List Paragraph → ℕ → Bool
is_full [] chars = false
is_full (p ∷ ps) chars = leb batch_size (length (p ∷ ps)) || ltb max_ingestion_prompt_chars chars

-- The loop of `batchParagraphs`, with the batch that it fills and its characters.
unfoldable pub batches_from : List Paragraph → ℕ → List Paragraph → List (List Paragraph)
batches_from [] chars [] = []
batches_from (c ∷ cs) chars [] = (c ∷ cs) ∷ []
batches_from current chars (p ∷ ps) =
    let cost = length (render_paragraph p) + 2 in
    let fresh = batches_from (p ∷ []) cost ps in
    let fuller = batches_from (current ++ p ∷ []) (chars + cost) ps in
    if is_full current (chars + cost) then current ∷ fresh else fuller

unfoldable pub batch_paragraphs : List Paragraph → List (List Paragraph)
unfolding batches_from
batch_paragraphs ps = batches_from [] 0 ps

-- The rendered paragraphs, a blank line between two of them.
unfoldable pub joined : List Paragraph → Text
unfolding render_paragraph
joined [] = []
joined (p ∷ []) = render_paragraph p
joined (p ∷ q ∷ ps) = render_paragraph p ++ 10 ∷ 10 ∷ joined (q ∷ ps)

unfoldable pub render_batch : List Paragraph → Text
unfolding joined
render_batch batch =
    if leb (length (joined batch)) max_ingestion_prompt_chars
    then joined batch
    else take max_ingestion_prompt_chars (joined batch) ++ 8230 ∷ []

-- A section of the model's answer: a field is none where it is missing or of another type, and a
-- number below 0 is too. Numbers count parts of a paragraph, `unit` to a whole one.
pub record RawSection : Type 0 where
  pub topic : Option Text
  pub start : Option ℕ
  pub end : Option ℕ

-- The tests of one section.
unfoldable pub section_of : ℕ → ℕ → Option Text → Option ℕ → Option ℕ → Option SectionBoundary
section_of expected last none start end = none
section_of expected last (some topic) none end = none
section_of expected last (some topic) (some start) none = none
section_of expected last (some topic) (some start) (some end) =
    if is_empty (trim topic) || not (start == expected) || ltb end start || ltb last end
    then none
    else some (record { topic_title = trim topic; para_start = start; para_end = end })

abbrev pub with_first :
    Option SectionBoundary → Option (List SectionBoundary) → Option (List SectionBoundary)
with_first none rest = none
with_first (some b) none = none
with_first (some b) (some bs) = some (b ∷ bs)

abbrev pub end_of : Option SectionBoundary → ℕ
end_of none = 0
end_of (some b) = b.para_end

-- The loop of `parseBoundaries`, with the start that it expects.
unfoldable pub boundaries_from : ℕ → ℕ → ℕ → List RawSection → Option (List SectionBoundary)
unfolding section_of
boundaries_from unit expected last [] = if expected == last + unit then some [] else none
boundaries_from unit expected last (s ∷ ss) =
    let b = section_of expected last s.topic s.start s.end in
    with_first b (boundaries_from unit (end_of b + unit) last ss)

-- `parseBoundaries`, of what the JSON in the answer holds as its sections, if anything.
unfoldable pub parse_boundaries :
    ℕ → Option (List RawSection) → ℕ → ℕ → Option (List SectionBoundary)
unfolding boundaries_from
parse_boundaries unit none first last = none
parse_boundaries unit (some []) first last = none
parse_boundaries unit (some (s ∷ ss)) first last =
    boundaries_from unit (first * unit) (last * unit) (s ∷ ss)

unfoldable pub passage_title : ℕ → ℕ → Text
unfolding shown
passage_title start end =
    codes "Passage (paragraphs " ++ shown start ++ 8211 ∷ shown end ++ codes ")"

-- The loop of `fallbackBoundaries`, with fuel for its passages.
unfoldable pub passages : ℕ → ℕ → ℕ → List SectionBoundary
unfolding passage_title
passages zero start last = []
passages (suc fuel) start last =
    let end = min (start + fallback_section_size - 1) last in
    let rest = passages fuel (start + fallback_section_size) last in
    if ltb last start
    then []
    else record { topic_title = passage_title start end; para_start = start; para_end = end } ∷ rest

unfoldable pub fallback_boundaries : ℕ → ℕ → List SectionBoundary
unfolding passages
fallback_boundaries first last = passages (suc last - first) first last

abbrev pub last_ord : ℕ → List Paragraph → ℕ
last_ord n [] = n
last_ord n (p ∷ ps) = last_ord p.ord ps

abbrev pub or_else : Option (List SectionBoundary) → List SectionBoundary → List SectionBoundary
or_else none bs = bs
or_else (some marked) bs = marked

-- `segmentBatch`, where `ask` gives what the answer to a prompt holds. Its numbers are whole.
unfoldable pub segment_batch :
    (Text → Option (List RawSection)) → List Paragraph → List SectionBoundary
unfolding render_batch parse_boundaries fallback_boundaries
segment_batch ask [] = []
segment_batch ask (p ∷ ps) =
    let last = last_ord p.ord ps in
    or_else (parse_boundaries 1 (ask (render_batch (p ∷ ps))) p.ord last)
      (fallback_boundaries p.ord last)

unfoldable pub segment_batches :
    (Text → Option (List RawSection)) → List (List Paragraph) → List SectionBoundary
unfolding segment_batch
segment_batches ask [] = []
segment_batches ask (b ∷ bs) = segment_batch ask b ++ segment_batches ask bs

unfoldable pub segment_paragraphs :
    (Text → Option (List RawSection)) → List Paragraph → List SectionBoundary
unfolding segment_batches batch_paragraphs
segment_paragraphs ask ps = segment_batches ask (batch_paragraphs ps)
