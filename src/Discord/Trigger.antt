-- ===== src/Discord/Trigger.antt =====
-- packages/discord/src/parse-trigger.ts, and the text that `wakeAction` of
-- packages/core/src/mission/start-mission-tool.ts arms a wake with. A regular expression is the
-- function that its greedy match computes.
use cobble_companion.Base.{
  ℕ, zero, suc, ◌+◌, Bool, true, false, ◌&&◌, ◌||◌, Option, none, some, ◌==◌, leb, if◌then◌else◌,
  Text, codes, List, [], ◌∷◌, ◌++◌, map, replicate, length, is_space, trim, trim_start, is_empty,
}

unfoldable pub is_digit : ℕ → Bool
is_digit x = leb 48 x && leb x 57

-- Case folding as the flags `i` and `u` do it, for the letters of a tag: `ſ` folds to `s`.
unfoldable pub fold : ℕ → ℕ
fold x = if leb 65 x && leb x 90 then x + 32 else (if x == 383 then 115 else x)

-- `toLowerCase` on a hexadecimal digit or a dash.
unfoldable pub lower_case : ℕ → ℕ
lower_case x = if leb 65 x && leb x 90 then x + 32 else x

unfoldable pub is_hex : ℕ → Bool
unfolding fold is_digit
is_hex x = is_digit x || (leb 97 (fold x) && leb (fold x) 102)

-- What follows a run of digits, if there is one, and its first unit is `>`: then without white space.
unfoldable pub close_mention : Bool → Text → Option Text
unfolding is_digit trim_start
close_mention seen [] = none
close_mention seen (x ∷ xs) =
    let rest = close_mention true xs in
    if is_digit x then rest else (if seen && x == 62 then some (trim_start xs) else none)

-- What follows a mention `<@…>` or `<@!…>`.
unfoldable pub after_at : Text → Option Text
unfolding close_mention
after_at [] = none
after_at (x ∷ xs) = if x == 33 then close_mention false xs else close_mention false (x ∷ xs)

unfoldable pub after_mention : Text → Option Text
unfolding after_at
after_mention (x ∷ y ∷ rest) = if (x == 60) && (y == 64) then after_at rest else none
after_mention (_ ∷ []) = none
after_mention [] = none

-- The replacement of LEADING_USER_MENTIONS by nothing, with one unit of fuel for each mention.
unfoldable pub strip_mentions : ℕ → Text → Text
unfolding after_mention
strip_mentions zero t = t
strip_mentions (suc fuel) t = elim (after_mention t) [
  | none ↦ t
  | some rest ↦ strip_mentions fuel rest
]

-- The text that units of the given classes match, and what follows it.
unfoldable pub match_classes : List (ℕ → Bool) → Text → Option (Text × Text)
match_classes [] t = some ([], t)
match_classes (p ∷ ps) [] = none
match_classes (p ∷ ps) (x ∷ xs) =
    let rest = match_classes ps xs in
    if p x then elim rest [ none ↦ none | some (m, r) ↦ some (x ∷ m, r) ] else none

-- `mission:`
abbrev tag_classes : List (ℕ → Bool)
tag_classes = map (λ c x. fold x == c) (codes "mission:")

abbrev pub dash : List (ℕ → Bool)
dash = (λ x. x == 45) ∷ []

unfoldable pub uuid_classes : List (ℕ → Bool)
unfolding is_hex
uuid_classes =
    replicate 8 is_hex
    ++ (dash
        ++ (replicate 4 is_hex
            ++ (dash
                ++ (replicate 4 is_hex
                    ++ (dash ++ (replicate 4 is_hex ++ (dash ++ replicate 12 is_hex)))))))

pub record TriggerEvent : Type 0 where
  pub mission_id : Text
  pub event : Text

-- White space and then the event, up to the end.
unfoldable pub event_of : Text → Text → Option TriggerEvent
unfolding is_space trim trim_start is_empty
event_of id [] = none
event_of id (x ∷ xs) =
    if is_space x && (if is_empty (trim xs) then false else true)
    then some (record { mission_id = map lower_case id; event = trim xs })
    else none

-- The id of the mission, and what follows it.
unfoldable pub parse_id : Text → Option TriggerEvent
unfolding match_classes uuid_classes event_of
parse_id t = elim (match_classes uuid_classes t) [
  | none ↦ none
  | some (id, rest) ↦ event_of id rest
]

unfoldable pub parse_tag : Text → Option TriggerEvent
unfolding match_classes fold parse_id
parse_tag t = elim (match_classes tag_classes t) [ none ↦ none | some (_, rest) ↦ parse_id rest ]

unfoldable pub parse_trigger_event : Text → Option TriggerEvent
unfolding strip_mentions trim parse_tag
parse_trigger_event content = parse_tag (trim (strip_mentions (length content) content))

-- The text of the wake up to `{{message}}`, which the scheduler replaces by the message.
abbrev pub wake_prefix : Text → Text → Text
wake_prefix bot mission = codes "<@" ++ (bot ++ (codes "> mission:" ++ (mission ++ codes " ")))

abbrev pub placeholder : Text
placeholder = codes "{{message}}"

unfoldable pub wake_text : Text → Text → Text
wake_text bot mission = wake_prefix bot mission ++ placeholder
