-- ===== src/Base/Spaces.antt =====
-- Texts and white space: `trim`, with the code units that ECMAScript counts as white space.
use Prim.Native.Nat.{ℕ}
use mathlib.Core.List.{[], ◌∷◌}
use mathlib.Core.Bool.{Bool, true, false, ◌||◌, ◌&&◌}
use cobble_companion.Base.Tests.{Text, ◌==◌, leb, if◌then◌else◌}

unfoldable pub is_space : ℕ → Bool
is_space x =
    (leb 9 x && leb x 13)
    || ((x == 32)
        || ((x == 160)
            || ((x == 5760)
                || ((leb 8192 x && leb x 8202)
                    || ((x == 8232)
                        || ((x == 8233)
                            || ((x == 8239)
                                || ((x == 8287) || ((x == 12288) || (x == 65279))))))))))

unfoldable pub trim_start : Text → Text
unfolding is_space
trim_start [] = []
trim_start (x ∷ xs) = let rest = trim_start xs in if is_space x then rest else x ∷ xs

unfoldable pub trim_end : Text → Text
unfolding is_space
trim_end [] = []
trim_end (x ∷ xs) = keep x (trim_end xs)
  where
    keep : ℕ → Text → Text
    keep x [] = if is_space x then [] else x ∷ []
    keep x (y ∷ ys) = x ∷ y ∷ ys

unfoldable pub trim : Text → Text
unfolding trim_start trim_end
trim t = trim_end (trim_start t)

unfoldable pub is_empty : Text → Bool
is_empty [] = true
is_empty (_ ∷ _) = false
