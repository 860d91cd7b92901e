-- ===== src/Ingestion/Examples.antt =====
-- A text out of which a sentinel would be spliced together, sections of a source, and instances of the theorems.
use cobble_companion.Base.{
  ◌≡◌, refl, false, none, some, Text, text_eq, is_empty, trim, codes, ℕ, suc, List, [], ◌∷◌, map,
  Option,
}
use cobble_companion.Ingestion.Untrusted.{untrusted_open, untrusted_close, strip_sentinels}
use cobble_companion.Ingestion.Sentinels.{occurs, strip_sentinels_absent}
use cobble_companion.Ingestion.Segmenter.{
  Paragraph, SectionBoundary, render_paragraph, is_full, batches_from, batch_paragraphs, joined,
  render_batch, RawSection, parse_boundaries, segment_batch, segment_batches, segment_paragraphs,
}
use cobble_companion.Ingestion.Covering.{Covers, segment_paragraphs-Covers}

-- Each sentinel is wrapped round an occurrence of itself.
abbrev spliced : Text
spliced = codes "a<<<UNTRUSTED<<<UNTRUSTED-SOURCE-MATERIAL-SOURCE-MATERIALb"

spliced_stripped : strip_sentinels spliced ≡ codes "ab"
unfolding strip_sentinels text_eq
spliced_stripped = refl

strip_sentinels_absent_example :
    let s = strip_sentinels spliced in
    (occurs untrusted_close s ≡ false) × (occurs untrusted_open s ≡ false)
strip_sentinels_absent_example = strip_sentinels_absent spliced

abbrev paragraphs_from : ℕ → List Text → List Paragraph
paragraphs_from n [] = []
paragraphs_from n (t ∷ ts) = record { ord = n; text = t } ∷ paragraphs_from (suc n) ts

abbrev source : List Paragraph
source =
    paragraphs_from 1
      (codes "a" ∷ codes "b" ∷ codes "c" ∷ codes "d" ∷ codes "e" ∷ codes "f" ∷ codes "g" ∷ [])

-- A model that leaves out the end of its section.
abbrev forgetful : Text → Option (List RawSection)
forgetful prompt = some (record { topic = some (codes "t"); start = some 1; end = none } ∷ [])

-- The fallback makes one passage of six paragraphs and one of the last.
falls_back : map (λ b. b.para_end) (segment_paragraphs forgetful source) ≡ 6 ∷ 7 ∷ []
unfolding segment_paragraphs segment_batches batch_paragraphs batches_from is_full render_paragraph
    segment_batch render_batch joined text_eq
falls_back = refl

abbrev map_ends : Option (List SectionBoundary) → Option (List ℕ)
map_ends none = none
map_ends (some bs) = some (map (λ b. b.para_end) bs)

-- Sections of half paragraphs, from 1 to 1.5 and from 2.5 to 3, pass the tests of three paragraphs.
halves :
    map_ends (
      parse_boundaries 2
        (some (
          record { topic = some (codes "a"); start = some 2; end = some 3 }
          ∷ record { topic = some (codes "b"); start = some 5; end = some 6 }
          ∷ []))
        1
        3)
    ≡ some (3 ∷ 6 ∷ [])
unfolding parse_boundaries is_empty trim
halves = refl

segment_paragraphs-Covers_example : Covers 1 (segment_paragraphs forgetful source) 8
segment_paragraphs-Covers_example =
    segment_paragraphs-Covers forgetful 1 source
      (refl, (refl, (refl, (refl, (refl, (refl, (refl, tt)))))))
