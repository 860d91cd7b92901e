-- ===== src/Growth/Mark.antt =====
-- core/src/growth/growth-store.ts: the stored mark of one companion, and its compare-and-set.
use cobble_companion.Base.{
  ℕ, Bool, true, false, ◌&&◌, ◌==◌, if◌then◌else◌, Option, none, some, Text, List, [], length,
}

pub record GrowthSnapshot : Type 0 where
  pub knowledge_band : ℕ
  pub bond_band : ℕ
  pub initiative_band : ℕ
  pub observed_capabilities : List Text

unfoldable pub empty : GrowthSnapshot
empty = record {
  knowledge_band = 0;
  bond_band = 0;
  initiative_band = 0;
  observed_capabilities = [];
}

-- `getSnapshot`: the row is made at the first use. It gives the mark and the row. Nobody acts between
-- its reads and the insert.
unfoldable pub get_snapshot : Option GrowthSnapshot → GrowthSnapshot × Option GrowthSnapshot
unfolding empty
get_snapshot none = (empty, some empty)
get_snapshot (some row) = (row, some row)

-- The test of `advance` on the row.
unfoldable pub matches : GrowthSnapshot → GrowthSnapshot → Bool
matches row from =
    (row.knowledge_band == from.knowledge_band)
    && (row.bond_band == from.bond_band)
    && (row.initiative_band == from.initiative_band)
    && (length row.observed_capabilities == length from.observed_capabilities)

-- `advance`: whether this caller won, and the row.
unfoldable pub advance :
    GrowthSnapshot → GrowthSnapshot → Option GrowthSnapshot → Bool × Option GrowthSnapshot
unfolding matches
advance from target none = (false, none)
advance from target (some row) = if matches row from then (true, some target) else (false, some row)
