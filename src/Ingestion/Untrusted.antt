-- ===== src/Ingestion/Untrusted.antt =====
-- packages/core/src/text/untrusted.ts: the sentinels that fence untrusted text, and their removal.
use cobble_companion.Base.{
  ℕ, zero, suc, ◌-◌, Bool, true, false, ◌&&◌, ◌==◌, if◌then◌else◌, Text, text_eq, codes, [], ◌∷◌,
  length,
}

abbrev pub untrusted_open : Text
untrusted_open = codes "<<<UNTRUSTED-SOURCE-MATERIAL"

abbrev pub untrusted_close : Text
untrusted_close = codes "END-UNTRUSTED-SOURCE-MATERIAL>>>"

abbrev pub max_ingestion_prompt_chars : ℕ
max_ingestion_prompt_chars = 24000

unfoldable pub starts_with : Text → Text → Bool
starts_with [] t = true
starts_with (p ∷ ps) [] = false
starts_with (p ∷ ps) (x ∷ xs) = (p == x) && starts_with ps xs

-- `split(pattern).join('')`, from the left: `skip` units of an occurrence are still to be left out.
unfoldable pub remove : Text → ℕ → Text → Text
unfolding starts_with
remove pattern skip [] = []
remove pattern (suc skip) (x ∷ xs) = remove pattern skip xs
remove pattern zero (x ∷ xs) =
    let dropped = remove pattern (length pattern - 1) xs in
    let kept = remove pattern zero xs in if starts_with pattern (x ∷ xs) then dropped else x ∷ kept

-- One pass of the loop.
unfoldable pub strip_once : Text → Text
unfolding remove
strip_once t = remove untrusted_open 0 (remove untrusted_close 0 t)

-- The loop, until a pass changes nothing; with fuel for each unit of text and one more.
unfoldable pub strip_until : ℕ → Text → Text
unfolding strip_once
strip_until zero t = t
strip_until (suc fuel) t =
    let again = strip_until fuel (strip_once t) in if text_eq (strip_once t) t then t else again

unfoldable pub strip_sentinels : Text → Text
unfolding strip_until
strip_sentinels t = strip_until (suc (length t)) t
