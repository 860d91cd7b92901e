-- ===== src/Jobs/Requests.antt =====
-- The coalescing keys of the triggers keep distinct events apart.
use cobble_companion.Base.{
  ℕ, ◌≡◌, ◌≢◌, refl, ap, none, some, [], ◌∷◌, ◌++◌, All, get_elem?, Text, arith,
}
use cobble_companion.Jobs.Tables.{
  reaction_learn_dedupe_key, key_of, type_text, JobType, consolidate, motivation, reaction_learn,
  ingest,
}
use cobble_companion.Jobs.Processor.{
  reaction_request, ingest_request, companion_request, IngestRequest,
}

-- The code unit of `:`.
abbrev pub colon : ℕ
colon = b':'

-- Where neither head holds a separator, the first separator splits two equal texts alike.
split_at_colon :
    (s t u v : Text)
    → All (λ c. c ≢ colon) s
    → All (λ c. c ≢ colon) t
    → s ++ (colon ∷ u) ≡ t ++ (colon ∷ v)
    → (s ≡ t) × (u ≡ v)
split_at_colon [] [] u v hs ht e = (refl, cc)
split_at_colon [] (b ∷ t) u v hs ht e = absurd (ht.0 (cc))
split_at_colon (a ∷ s) [] u v hs ht e = absurd (hs.0 (cc))
split_at_colon (a ∷ s) (b ∷ t) u v hs ht e =
    let (st, uv) = split_at_colon s t u v hs.1 ht.1 (cc) in (cc, uv)

-- Two reactions share a key only if they are the same emoji on the same message: message ids hold no
-- colon.
reaction_learn_dedupe_key_inj :
    (message message' emoji emoji' : Text)
    → All (λ c. c ≢ colon) message
    → All (λ c. c ≢ colon) message'
    → reaction_learn_dedupe_key message emoji ≡ reaction_learn_dedupe_key message' emoji'
    → (message ≡ message') × (emoji ≡ emoji')
unfolding reaction_learn_dedupe_key
reaction_learn_dedupe_key_inj message message' emoji emoji' h h' e =
    split_at_colon message message' emoji emoji' h h' (cc)

-- The code unit at a place; 0 past the end.
code_at : ℕ → Text → ℕ
code_at i s = elim (get_elem? s i) [ none ↦ 0 | some c ↦ c ]

-- The keys of an ingestion, of a reaction and of companion-wide work are pairwise different, so that a
-- request of one kind never collapses onto work of another.
ingest_key_apart :
    (p : IngestRequest) (companion : ℕ) (message emoji : Text) (type : JobType)
    → (key_of (ingest_request p) ≢ key_of (reaction_request companion message emoji))
      × (key_of (ingest_request p) ≢ key_of (companion_request type companion))
      × (key_of (reaction_request companion message emoji)
          ≢ key_of (companion_request type companion))
unfolding code_at ingest_request reaction_request companion_request reaction_learn_dedupe_key
    type_text
ingest_key_apart p companion message emoji consolidate = (
  λ e. omega (arith, ap (code_at 0) e),
  λ e. omega (arith, ap (code_at 0) e),
  λ e. omega (arith, ap (code_at 0) e),
)
ingest_key_apart p companion message emoji motivation = (
  λ e. omega (arith, ap (code_at 0) e),
  λ e. omega (arith, ap (code_at 0) e),
  λ e. omega (arith, ap (code_at 0) e),
)
ingest_key_apart p companion message emoji reaction_learn = (
  λ e. omega (arith, ap (code_at 0) e),
  λ e. omega (arith, ap (code_at 0) e),
  λ e. omega (arith, ap (code_at 8) e),
)
ingest_key_apart p companion message emoji ingest = (
  λ e. omega (arith, ap (code_at 0) e),
  λ e. omega (arith, ap (code_at 6) e),
  λ e. omega (arith, ap (code_at 0) e),
)
