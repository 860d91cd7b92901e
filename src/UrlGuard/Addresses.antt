-- ===== src/UrlGuard/Addresses.antt =====
-- packages/core/src/ingestion/url-guard.ts: parsing a literal address and judging it, the check of a
-- URL, and the guarded lookup.
use cobble_companion.Base.{
  ℕ, ◌+◌, ◌-◌, ◌*◌, ◌/◌, ◌%◌, Bool, true, false, ◌&&◌, ◌||◌, not, Option, none, some, List, [], ◌∷◌,
  ◌++◌, ◌==◌, leb, if◌then◌else◌, Text, codes, text_eq, length, replicate, exists_where, reverse,
}
use cobble_companion.UrlGuard.Text.{
  split, colon, split_double_colon, is_digit, is_hex_digit, is_run, hex_value, number_from, to_hex,
  lower_case, drop_front, drop_end, includes,
}

pub record Ipv4 : Type 0 where
  pub a : ℕ
  pub b : ℕ
  pub c : ℕ
  pub d : ℕ

unfoldable pub is_octet_text : Text → Bool
is_octet_text t = is_run is_digit 3 t

unfoldable pub decimal : Text → ℕ
decimal t = number_from (λ x. x - 48) 10 0 t

unfoldable pub quad_of : List Text → Option Ipv4
unfolding is_octet_text decimal
quad_of (p ∷ q ∷ r ∷ s ∷ []) =
    if (is_octet_text p && is_octet_text q) && (is_octet_text r && is_octet_text s)
    then some (record { a = decimal p; b = decimal q; c = decimal r; d = decimal s })
    else none
quad_of _ = none

unfoldable pub in_range : Ipv4 → Bool
in_range v = (leb v.a 255 && leb v.b 255) && (leb v.c 255 && leb v.d 255)

unfoldable pub parse_ipv4 : Text → Option Ipv4
unfolding quad_of in_range
parse_ipv4 host = elim (quad_of (split 46 host)) [
  | none ↦ none
  | some v ↦ if in_range v then some v else none
]

unfoldable pub is_blocked_ipv4 : ℕ → ℕ → Bool
is_blocked_ipv4 a b =
    a == 0
    || (a == 10
        || (a == 127
            || ((a == 100 && (leb 64 b && leb b 127))
                || ((a == 169 && b == 254)
                    || ((a == 172 && (leb 16 b && leb b 31))
                        || ((a == 192 && b == 0)
                            || ((a == 192 && b == 168)
                                || ((a == 198 && (b == 18 || b == 19)) || leb 224 a))))))))

-- An address in two groups: `(high >> 8) & 0xff` and `high & 0xff`.
unfoldable pub is_blocked_embedded : ℕ → ℕ → Bool
unfolding is_blocked_ipv4
is_blocked_embedded high low = is_blocked_ipv4 ((high / 256) % 256) (high % 256)

unfoldable pub is_blocked_groups : ℕ → ℕ → ℕ → ℕ → ℕ → ℕ → ℕ → ℕ → Bool
unfolding is_blocked_embedded
is_blocked_groups g0 g1 g2 g3 g4 g5 g6 g7 =
    let leading_zero = g0 == 0 && (g1 == 0 && (g2 == 0 && (g3 == 0 && g4 == 0))) in
    if leading_zero && g5 == 0
    then (if g6 == 0 && leb g7 1 then true else is_blocked_embedded g6 g7)
    else if leading_zero && g5 == 65535
    then is_blocked_embedded g6 g7
    else if g0 == 100 && g1 == 65435
    then (if g2 == 0 then is_blocked_embedded g6 g7 else true)
    else if g0 == 8194
    then is_blocked_embedded g1 g2
    else if g0 == 8193 && g1 == 0
    then true
    else (leb 65152 g0 && leb g0 65279) || ((leb 64512 g0 && leb g0 65023) || leb 65280 g0)

unfoldable pub group_at : ℕ → List ℕ → ℕ
group_at i [] = 0
group_at i (g ∷ gs) = let rest = group_at (i - 1) gs in if i == 0 then g else rest

unfoldable pub is_blocked_ipv6 : List ℕ → Bool
unfolding is_blocked_groups group_at
is_blocked_ipv6 gs =
    is_blocked_groups (group_at 0 gs) (group_at 1 gs) (group_at 2 gs) (group_at 3 gs)
      (group_at 4 gs) (group_at 5 gs) (group_at 6 gs) (group_at 7 gs)

-- The part of the literal before a `%`.
unfoldable pub first_part : List Text → Text
first_part [] = []
first_part (w ∷ ws) = w

-- What stands before the last colon, and after it, where there is one.
unfoldable pub cut_last : Text → Option (Text × Text)
cut_last [] = none
cut_last (x ∷ xs) = elim (cut_last xs) [
  | some (before, behind) ↦ some (x ∷ before, behind)
  | none ↦ if x == colon then some ([], xs) else none
]

-- The rewriting of an embedded dotted quad; the first option is the refusal of the literal.
unfoldable pub rewrite_tail : Text → Option Text
unfolding cut_last first_part quad_of parse_ipv4
rewrite_tail address = elim (cut_last address) [
  | none ↦ some address
  | some ([], behind) ↦ some address
  | some (x ∷ before, behind) ↦ elim (quad_of (split 46 behind)) [
    | none ↦ some address
    | some v ↦
        if in_range v
        then some (
            (x ∷ before)
            ++ (colon ∷ (to_hex (v.a * 256 + v.b) ++ (colon ∷ to_hex (v.c * 256 + v.d)))))
        else none
  ]
]

-- `half ? half.split(':') : []`.
unfoldable pub groups_of : Text → List Text
groups_of [] = []
groups_of (x ∷ xs) = split colon (x ∷ xs)

unfoldable pub expand : List Text → Option (List Text)
unfolding groups_of
expand [] = none
expand (half ∷ []) = if length (groups_of half) == 8 then some (groups_of half) else none
expand (h ∷ t ∷ []) =
    if leb (length (groups_of h) + length (groups_of t)) 7
    then some (
        groups_of h
        ++ (replicate (8 - (length (groups_of h) + length (groups_of t))) (codes "0")
            ++ groups_of t))
    else none
expand _ = none

unfoldable pub numbers : List Text → Option (List ℕ)
numbers [] = some []
numbers (w ∷ ws) = elim (numbers ws) [
  | none ↦ none
  | some ns ↦ if is_run is_hex_digit 4 w then some (number_from hex_value 16 0 w ∷ ns) else none
]

unfoldable pub numbers_of : Option (List Text) → Option (List ℕ)
unfolding numbers
numbers_of none = none
numbers_of (some ws) = numbers ws

unfoldable pub parse_working : Option Text → Option (List ℕ)
unfolding numbers_of expand
parse_working none = none
parse_working (some working) = numbers_of (expand (split_double_colon working))

unfoldable pub parse_ipv6 : Text → Option (List ℕ)
unfolding parse_working rewrite_tail first_part
parse_ipv6 literal = elim (first_part (split 37 literal)) [
  | [] ↦ none
  | x ∷ xs ↦ parse_working (rewrite_tail (x ∷ xs))
]

unfoldable pub is_blocked_v6_literal : Option (List ℕ) → Bool
unfolding is_blocked_ipv6
is_blocked_v6_literal none = true
is_blocked_v6_literal (some gs) = is_blocked_ipv6 gs

unfoldable pub is_blocked_v4_literal : Option Ipv4 → Bool
unfolding is_blocked_ipv4
is_blocked_v4_literal none = false
is_blocked_v4_literal (some v) = is_blocked_ipv4 v.a v.b

unfoldable pub is_blocked_ip_address : Text → Bool
unfolding is_blocked_v6_literal is_blocked_v4_literal parse_ipv6 parse_ipv4
is_blocked_ip_address host =
    let bare = lower_case (drop_end 93 (drop_front 91 host)) in
    if includes colon bare
    then is_blocked_v6_literal (parse_ipv6 bare)
    else is_blocked_v4_literal (parse_ipv4 bare)

pub record Url : Type 0 where
  pub protocol : Text
  pub hostname : Text

pub data UrlResult : Type 0 where
  public_url : Url → UrlResult
  invalid_url unsupported_protocol private_address : UrlResult

abbrev pub blocked_hostnames : List Text
blocked_hostnames = codes "localhost" ∷ codes "metadata.google.internal" ∷ []

abbrev pub blocked_suffixes : List Text
blocked_suffixes = codes ".localhost" ∷ codes ".internal" ∷ codes ".local" ∷ []

abbrev starts_with : Text → Text → Bool
starts_with [] t = true
starts_with (x ∷ xs) [] = false
starts_with (x ∷ xs) (y ∷ ys) = x == y && starts_with xs ys

unfoldable pub ends_with : Text → Text → Bool
ends_with suffix t = starts_with (reverse suffix) (reverse t)

unfoldable pub is_private_host : Text → Bool
unfolding ends_with is_blocked_ip_address
is_private_host hostname =
    exists_where (text_eq hostname) blocked_hostnames
    || (exists_where (λ suffix. ends_with suffix hostname) blocked_suffixes
        || is_blocked_ip_address hostname)

-- `url` is the URL that the constructor parses, where it does not throw.
unfoldable pub assert_public_http_url : Option Url → UrlResult
unfolding is_private_host
assert_public_http_url none = invalid_url
assert_public_http_url (some url) =
    if not (text_eq url.protocol (codes "http:")) && not (text_eq url.protocol (codes "https:"))
    then unsupported_protocol
    else if is_private_host (drop_end 46 (lower_case url.hostname))
    then private_address
    else public_url url

pub record LookupAddress : Type 0 where
  pub address : Text
  pub family : ℕ

-- What the base lookup calls back with, and what the guarded one does.
pub data BaseAnswer : Type 0 where
  failed : BaseAnswer
  many : List LookupAddress → BaseAnswer
  one : Text → BaseAnswer

pub data GuardedAnswer : Type 0 where
  lookup_error : GuardedAnswer
  unresolved : GuardedAnswer
  refused : GuardedAnswer
  all_addresses : List LookupAddress → GuardedAnswer
  first_address : LookupAddress → GuardedAnswer

unfoldable pub judge : Bool → List LookupAddress → GuardedAnswer
unfolding is_blocked_ip_address
judge all [] = unresolved
judge all (x ∷ xs) =
    if exists_where (λ e. is_blocked_ip_address e.address) (x ∷ xs)
    then refused
    else if all
    then all_addresses (x ∷ xs)
    else first_address x

unfoldable pub guarded_lookup : Bool → BaseAnswer → GuardedAnswer
unfolding judge
guarded_lookup all failed = lookup_error
guarded_lookup all (many xs) = judge all xs
guarded_lookup all (one address) = judge all (record { address = address; family = 4 } ∷ [])
