-- ===== src/UrlGuard/Ranges.antt =====
-- The blocked IPv4 addresses, as blocks of 32-bit numbers, and their disguises in IPv6.
use cobble_companion.Base.{
  ℕ, ◌+◌, ◌*◌, ◌/◌, ◌%◌, ◌≤◌, ◌≡◌, ◌⊎◌, refl, Bool, true, false, ◌&&◌, List, [], ◌∷◌, ◌==◌, leb,
  exists_where, arith, Bool-cases,
}
use cobble_companion.UrlGuard.Addresses.{is_blocked_ipv4, is_blocked_embedded, is_blocked_groups}

-- The number of an address.
abbrev pub number : ℕ → ℕ → ℕ → ℕ → ℕ
number a b c d = a * 16777216 + (b * 65536 + (c * 256 + d))

abbrev pub is_within : ℕ → ℕ × ℕ → Bool
is_within n (low, high) = leb low n && leb n high

-- From and to, each end included.
abbrev pub blocked_ranges : List (ℕ × ℕ)
blocked_ranges =
    (number 0 0 0 0, number 0 255 255 255)
    ∷ (number 10 0 0 0, number 10 255 255 255)
    ∷ (number 127 0 0 0, number 127 255 255 255)
    ∷ (number 100 64 0 0, number 100 127 255 255)
    ∷ (number 169 254 0 0, number 169 254 255 255)
    ∷ (number 172 16 0 0, number 172 31 255 255)
    ∷ (number 192 0 0 0, number 192 0 255 255)
    ∷ (number 192 168 0 0, number 192 168 255 255)
    ∷ (number 198 18 0 0, number 198 19 255 255)
    ∷ (number 224 0 0 0, number 255 255 255 255)
    ∷ []

within_lem :
    (k low high a b c d : ℕ)
    → high ≤ 255
    → b ≤ 255
    → c ≤ 255
    → d ≤ 255
    → is_within (number a b c d) (number k low 0 0, number k high 255 255)
      ≡ (a == k && (leb low b && leb b high))
within_lem k low high a b c d h hb hc hd = ground arith

top_lem :
    (a b c d : ℕ)
    → a ≤ 255
    → b ≤ 255
    → c ≤ 255
    → d ≤ 255
    → is_within (number a b c d) (number 224 0 0 0, number 255 255 255 255) ≡ leb 224 a
top_lem a b c d ha hb hc hd = ground arith

-- An IPv4 address is refused exactly where its number lies in one of the blocked ranges.
pub is_blocked_ipv4-ranges :
    (a b c d : ℕ)
    → a ≤ 255
    → b ≤ 255
    → c ≤ 255
    → d ≤ 255
    → is_blocked_ipv4 a b ≡ exists_where (is_within (number a b c d)) blocked_ranges
unfolding is_blocked_ipv4 exists_where
is_blocked_ipv4-ranges a b c d ha hb hc hd = ground (
  arith,
  within_lem 0 0 255 a b c d (omega arith) hb hc hd,
  within_lem 10 0 255 a b c d (omega arith) hb hc hd,
  within_lem 127 0 255 a b c d (omega arith) hb hc hd,
  within_lem 100 64 127 a b c d (omega arith) hb hc hd,
  within_lem 169 254 254 a b c d (omega arith) hb hc hd,
  within_lem 172 16 31 a b c d (omega arith) hb hc hd,
  within_lem 192 0 0 a b c d (omega arith) hb hc hd,
  within_lem 192 168 168 a b c d (omega arith) hb hc hd,
  within_lem 198 18 19 a b c d (omega arith) hb hc hd,
  top_lem a b c d ha hb hc hd,
)

embedded_lem :
    (a b low : ℕ) → a ≤ 255 → b ≤ 255 → is_blocked_embedded (a * 256 + b) low ≡ is_blocked_ipv4 a b
unfolding is_blocked_embedded
embedded_lem a b low ha hb =
    let top : (a * 256 + b) / 256 % 256 ≡ a = omega arith in
    let bottom : (a * 256 + b) % 256 ≡ b = omega arith in rw top (rw bottom refl)

-- An IPv4 address in an IPv6 disguise, mapped, compatible, behind NAT64 or in 6to4, is refused exactly
-- where the address itself is, whatever the other groups are.
pub disguises_agree :
    (a b c d x y z u v : ℕ)
    → a ≤ 255
    → b ≤ 255
    → c ≤ 255
    → d ≤ 255
    → let high = a * 256 + b in
      let low = c * 256 + d in
      (is_blocked_groups 0 0 0 0 0 65535 high low ≡ is_blocked_ipv4 a b)
      × (is_blocked_groups 0 0 0 0 0 0 high low ≡ is_blocked_ipv4 a b)
      × (is_blocked_groups 100 65435 0 x y z high low ≡ is_blocked_ipv4 a b)
      × (is_blocked_groups 8194 high low x y z u v ≡ is_blocked_ipv4 a b)
unfolding is_blocked_groups
disguises_agree a b c d x y z u v ha hb hc hd =
    let same = embedded_lem a b (c * 256 + d) ha hb in
    (same, compatible (Bool-cases (a * 256 + b == 0)), same, same)
  where
    compatible :
        ((a * 256 + b == 0) ≡ true) ⊎ ((a * 256 + b == 0) ≡ false)
        → is_blocked_groups 0 0 0 0 0 0 (a * 256 + b) (c * 256 + d) ≡ is_blocked_ipv4 a b
    compatible h =
        unfold is_blocked_groups is_blocked_ipv4 in
        ground (arith, embedded_lem a b (c * 256 + d) ha hb)
