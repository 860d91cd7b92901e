-- ===== src/Discord/RoundTrip.antt =====
-- What a wake is armed with, parsed back.
use cobble_companion.Base.{
  ℕ, suc, ◌≡◌, refl, sym, ap, ◌∙◌, Bool, true, false, ◌&&◌, ◌||◌, ◌⊎◌, inl, inr, none, some, ◌==◌,
  if◌then◌else◌, Text, codes, List, [], ◌∷◌, ◌++◌, map, length, replicate, zero, All, All-append,
  All-imp, trim, trim_start, trim_end, is_empty, arith,
}
use mathlib.Core.List.{append_assoc}
use cobble_companion.Discord.Trigger.{
  is_digit, is_hex, dash, fold, lower_case, close_mention, after_at, after_mention, strip_mentions,
  match_classes, uuid_classes, event_of, parse_id, parse_tag, parse_trigger_event, wake_prefix,
  placeholder, wake_text,
}

List-cases : (t : Text) → (t ≡ []) ⊎ ((y : ℕ) × (ys : Text) × (t ≡ y ∷ ys))
List-cases [] = inl refl
List-cases (y ∷ ys) = inr (y, ys, refl)

-- White space at the two ends is cut off in either order.
trim_start-trim_end : (t : Text) → trim_start (trim_end t) ≡ trim_end (trim_start t)
unfolding trim_start trim_end
trim_start-trim_end [] = refl
trim_start-trim_end (x ∷ xs) = elim (List-cases (trim_end xs)) [
  | inl e ↦ ground (arith, e, trim_start-trim_end xs)
  | inr (y, ys, e) ↦ ground (arith, e, trim_start-trim_end xs)
]

trim_end-idempotent : (t : Text) → trim_end (trim_end t) ≡ trim_end t
unfolding trim_end
trim_end-idempotent [] = refl
trim_end-idempotent (x ∷ xs) = elim (List-cases (trim_end xs)) [
  | inl e ↦ ground (arith, e, trim_end-idempotent xs)
  | inr (y, ys, e) ↦ ground (arith, e, trim_end-idempotent xs)
]

-- Text at whose end something stays is cut only there.
trim_end-append :
    (p t : Text) (y : ℕ) (ys : Text) → trim_end t ≡ y ∷ ys → trim_end (p ++ t) ≡ p ++ (y ∷ ys)
unfolding trim_end
trim_end-append [] t y ys h = h
trim_end-append (x ∷ []) t y ys h = rw h refl
trim_end-append (x ∷ z ∷ zs) t y ys h = rw (trim_end-append (z ∷ zs) t y ys h) refl

-- A text of as many units as there are classes, each of its class.
unfoldable pub matches : List (ℕ → Bool) → Text → Bool
matches [] [] = true
matches [] (_ ∷ _) = false
matches (p ∷ ps) [] = false
matches (p ∷ ps) (x ∷ xs) = p x && matches ps xs

-- Such a text is matched, whatever follows it.
match_classes-append :
    (ps : List (ℕ → Bool)) (t rest : Text)
    → matches ps t ≡ true
    → match_classes ps (t ++ rest) ≡ some (t, rest)
unfolding match_classes matches
match_classes-append [] [] rest h = refl
match_classes-append [] (x ∷ t) rest h = cc
match_classes-append (p ∷ ps) [] rest h = cc
match_classes-append (p ∷ ps) (x ∷ t) rest h =
    let here : p x ≡ true = ground (arith, h) in
    let more : matches ps t ≡ true = ground (arith, h) in
    rw (here, match_classes-append ps t rest more) refl

close_mention-digits :
    (seen : Bool) (bot rest : Text)
    → All (λ x. is_digit x ≡ true) bot
    → (seen || (if is_empty bot then false else true)) ≡ true
    → close_mention seen (bot ++ (62 ∷ rest)) ≡ some (trim_start rest)
unfolding close_mention is_empty is_digit
close_mention-digits seen [] rest h n = ground (arith, n)
close_mention-digits seen (x ∷ xs) rest h n =
    ground (arith, h, close_mention-digits true xs rest h.1 refl)

after_at-digits :
    (bot rest : Text)
    → All (λ x. is_digit x ≡ true) bot
    → is_empty bot ≡ false
    → after_at (bot ++ (62 ∷ rest)) ≡ some (trim_start rest)
unfolding after_at is_empty
after_at-digits [] rest h n = cc
after_at-digits (x ∷ xs) rest h n =
    let no_bang : (x == 33) ≡ false = unfold is_digit in ground (arith, h.0) in
    rw no_bang (close_mention-digits false (x ∷ xs) rest h (unfold is_empty in refl))

-- A mention at the head of a text is what is stripped of it, where no mention follows.
strip_mentions-mention :
    (bot rest : Text) (fuel : ℕ)
    → All (λ x. is_digit x ≡ true) bot
    → is_empty bot ≡ false
    → after_mention (trim_start rest) ≡ none
    → strip_mentions (suc (suc fuel)) (codes "<@" ++ (bot ++ (62 ∷ rest))) ≡ trim_start rest
unfolding strip_mentions after_mention
strip_mentions-mention bot rest fuel h n last =
    rw (after_at-digits bot rest h n, last, strip_mentions, after_mention) refl

-- A mission's id and a message, parsed.
parse_id-message :
    (mission event : Text)
    → matches uuid_classes mission ≡ true
    → is_empty (trim event) ≡ false
    → parse_id (mission ++ (32 ∷ event))
      ≡ some (record { mission_id = map lower_case mission; event = trim event })
unfolding event_of parse_id
parse_id-message mission event h n =
    rw (match_classes-append uuid_classes mission (32 ∷ event) h, parse_id) (rw n refl)

trim_end-some :
    (t : Text) → is_empty (trim t) ≡ false → (y : ℕ) × (ys : Text) × (trim_end t ≡ y ∷ ys)
unfolding trim is_empty trim_start
trim_end-some t h = elim (List-cases (trim_end t)) [
  | inl e ↦
      let cut : trim_end (trim_start t) ≡ [] = sym (trim_start-trim_end t) ∙ ap trim_start e in
      absurd (clash cut)
  | inr k ↦ k
]
  where
    clash : trim_end (trim_start t) ≡ [] → ⊥
    clash cut = let blank : is_empty (trim_end (trim_start t)) ≡ true = rw cut refl in cc

trim-trim_end : (t : Text) → trim (trim_end t) ≡ trim t
unfolding trim
trim-trim_end t = ap trim_end (trim_start-trim_end t) ∙ trim_end-idempotent (trim_start t)

trim-tag :
    (mission message : Text)
    → is_empty (trim message) ≡ false
    → trim (codes "mission:" ++ (mission ++ (32 ∷ message)))
      ≡ codes "mission:" ++ (mission ++ (32 ∷ trim_end message))
unfolding trim trim_start
trim-tag mission message m =
    let (y, ys, e) = trim_end-some message m in
    rw e (
      trim_end-append (codes "mission:" ++ mission) (32 ∷ message) 32 (y ∷ ys)
        (trim_end-append (32 ∷ []) message y ys e))

parse_tag-tag : (t : Text) → parse_tag (codes "mission:" ++ t) ≡ parse_id t
unfolding parse_tag match_classes fold
parse_tag-tag t = refl

parse_trigger_event-mention :
    (bot mission message : Text)
    → All (λ x. is_digit x ≡ true) bot
    → is_empty bot ≡ false
    → matches uuid_classes mission ≡ true
    → is_empty (trim message) ≡ false
    → parse_trigger_event
        (codes "<@" ++ (bot ++ (62 ∷ 32 ∷ (codes "mission:" ++ (mission ++ (32 ∷ message))))))
      ≡ some (record { mission_id = map lower_case mission; event = trim message })
unfolding parse_trigger_event after_mention trim_start
parse_trigger_event-mention bot mission message h n u m =
    let tag = codes "mission:" ++ (mission ++ (32 ∷ message)) in
    let fuel = length (bot ++ (62 ∷ 32 ∷ tag)) in
    let stripped = strip_mentions-mention bot (32 ∷ tag) fuel h n refl in
    let parsed = parse_id-message mission (trim_end message) u (rw (trim-trim_end message) m) in
    ap (λ t. parse_tag (trim t)) stripped
    ∙ ap parse_tag (trim-tag mission message m)
    ∙ parse_tag-tag (mission ++ (32 ∷ trim_end message))
    ∙ rw (trim-trim_end message) at parsed

wake_prefix-append :
    (bot mission message : Text)
    → wake_prefix bot mission ++ message
      ≡ codes "<@" ++ (bot ++ (62 ∷ 32 ∷ (codes "mission:" ++ (mission ++ (32 ∷ message)))))
wake_prefix-append bot mission message =
    let tag = codes "> mission:" ++ (mission ++ codes " ") in
    ap (λ t. codes "<@" ++ t)
      (append_assoc bot tag message
        ∙ ap (λ t. bot ++ (codes "> mission:" ++ t)) (append_assoc mission (codes " ") message))

-- No unit of the text is an opening brace.
abbrev pub Braceless : Text → Type 0
Braceless t = All (λ x. (x == 123) ≡ false) t

All-replicate : {A : Type 0} (P : A → Type 0) (n : ℕ) (a : A) → P a → All P (replicate n a)
All-replicate P zero a h = tt
All-replicate P (suc n) a h = (h, All-replicate P n a h)

abbrev Excludes : (ℕ → Bool) → Type 0
Excludes p = (x : ℕ) → p x ≡ true → (x == 123) ≡ false

matches-Braceless :
    (ps : List (ℕ → Bool)) (t : Text) → All Excludes ps → matches ps t ≡ true → Braceless t
unfolding matches
matches-Braceless [] [] a h = tt
matches-Braceless [] (x ∷ t) a h = absurd cc
matches-Braceless (p ∷ ps) [] a h = absurd cc
matches-Braceless (p ∷ ps) (x ∷ t) (e, a) h =
    let here : p x ≡ true = ground (arith, h) in
    let rest : matches ps t ≡ true = ground (arith, h) in (e x here, matches-Braceless ps t a rest)

hex-Excludes : Excludes is_hex
unfolding is_hex is_digit fold
hex-Excludes x h = ground (arith, h)

dash-Excludes : All Excludes dash
dash-Excludes = (λ x h. ground arith, tt)

hexes-Excludes : (n : ℕ) → All Excludes (replicate n is_hex)
hexes-Excludes n = All-replicate Excludes n is_hex hex-Excludes

uuid_classes-Excludes : All Excludes uuid_classes
unfolding uuid_classes
uuid_classes-Excludes = search (All-append, hexes-Excludes, dash-Excludes) depth 12

digits-Braceless : (bot : Text) → All (λ x. is_digit x ≡ true) bot → Braceless bot
unfolding is_digit
digits-Braceless bot h =
    All-imp (λ x. is_digit x ≡ true) (λ x. (x == 123) ≡ false) (λ x d. ground (arith, d)) bot h

wake_prefix-Braceless :
    (bot mission : Text)
    → All (λ x. is_digit x ≡ true) bot
    → matches uuid_classes mission ≡ true
    → Braceless (wake_prefix bot mission)
wake_prefix-Braceless bot mission h u =
    let unbraced = λ (x : ℕ). (x == 123) ≡ false in
    let id = matches-Braceless uuid_classes mission uuid_classes-Excludes u in
    let tail = All-append unbraced mission (codes " ") id (refl, tt) in
    All-append unbraced (codes "<@") _ (refl, (refl, tt))
      (All-append unbraced bot _ (digits-Braceless bot h) (
        All-append unbraced (codes "> mission:") _
          (refl, (refl, (refl, (refl, (refl, (refl, (refl, (refl, (refl, (refl, tt)))))))))) tail))

-- The wake of a mission, armed for a bot with an id of digits and fired with a message that is not
-- blank, is parsed as an event of that mission with the message, its ends trimmed, where the scheduler
-- puts the message in the place of a `{{message}}` that ends a text without other braces, as the
-- replacement of every `{{message}}` does.
pub parse_trigger_event-wake_text :
    (render : Text → Text → Text)
    → ((text message : Text)
        → Braceless text
        → render (text ++ placeholder) message ≡ text ++ message)
    → (bot mission message : Text) → All (λ x. is_digit x ≡ true) bot
    → is_empty bot ≡ false
    → matches uuid_classes mission ≡ true
    → map lower_case mission ≡ mission
    → is_empty (trim message) ≡ false
    → parse_trigger_event (render (wake_text bot mission) message)
      ≡ some (record { mission_id = mission; event = trim message })
unfolding wake_text
parse_trigger_event-wake_text render renders bot mission message h n u low m =
    ap parse_trigger_event
      (renders (wake_prefix bot mission) message (wake_prefix-Braceless bot mission h u))
    ∙ ap parse_trigger_event (wake_prefix-append bot mission message)
    ∙ parse_trigger_event-mention bot mission message h n u m
    ∙ ap (λ id. some (record { mission_id = id; event = trim message })) low
