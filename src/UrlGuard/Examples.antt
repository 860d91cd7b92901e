-- ===== src/UrlGuard/Examples.antt =====
-- Tests of the guard on concrete addresses, and instances of its theorems.
use cobble_companion.Base.{
  ℕ, ◌+◌, ◌*◌, ◌≡◌, refl, inl, true, false, List, [], ◌∷◌, codes, All, In, exists_where, arith,
}
use cobble_companion.UrlGuard.Text.{
  split, onto_first, split_double_colon, is_digit, is_hex_digit, is_run, hex_value, number_from,
  to_hex, hex_digit, lower, lower_case, drop_front, drop_end,
}
use cobble_companion.UrlGuard.Addresses.{
  is_octet_text, decimal, quad_of, in_range, parse_ipv4, is_blocked_ipv4, is_blocked_embedded,
  is_blocked_groups, group_at, is_blocked_ipv6, first_part, cut_last, rewrite_tail, groups_of,
  expand, numbers, numbers_of, parse_working, parse_ipv6, is_blocked_v6_literal,
  is_blocked_v4_literal, is_blocked_ip_address, LookupAddress, many, guarded_lookup, judge,
}
use cobble_companion.UrlGuard.Ranges.{
  number, is_within, blocked_ranges, is_blocked_ipv4-ranges, disguises_agree,
}
use cobble_companion.UrlGuard.Lookup.{resolved, guarded_lookup-safe}

private_mapped : is_blocked_ip_address (codes "[::FFFF:10.0.0.1]") ≡ true
unfolding is_blocked_ip_address split onto_first split_double_colon is_digit is_hex_digit is_run
    hex_value number_from to_hex hex_digit lower lower_case drop_front drop_end is_octet_text
    decimal quad_of in_range parse_ipv4 is_blocked_ipv4 is_blocked_embedded is_blocked_groups
    group_at is_blocked_ipv6 first_part cut_last rewrite_tail groups_of expand numbers numbers_of
    parse_working parse_ipv6 is_blocked_v6_literal is_blocked_v4_literal
private_mapped = refl

public_address : is_blocked_ip_address (codes "8.8.4.4") ≡ false
unfolding is_blocked_ip_address split onto_first is_digit is_run number_from lower lower_case
    drop_front drop_end is_octet_text decimal quad_of in_range parse_ipv4 is_blocked_ipv4
    is_blocked_v4_literal
public_address = refl

is_blocked_ipv4-ranges_example :
    is_blocked_ipv4 172 20 ≡ exists_where (is_within (number 172 20 0 9)) blocked_ranges
is_blocked_ipv4-ranges_example =
    is_blocked_ipv4-ranges 172 20 0 9 (omega arith) (omega arith) (omega arith) (omega arith)

disguises_agree_example :
    let high = 10 * 256 + 0 in
    let low = 0 * 256 + 1 in
    (is_blocked_groups 0 0 0 0 0 65535 high low ≡ is_blocked_ipv4 10 0)
    × (is_blocked_groups 0 0 0 0 0 0 high low ≡ is_blocked_ipv4 10 0)
    × (is_blocked_groups 100 65435 0 7 8 9 high low ≡ is_blocked_ipv4 10 0)
    × (is_blocked_groups 8194 high low 7 8 9 1 2 ≡ is_blocked_ipv4 10 0)
disguises_agree_example =
    disguises_agree 10 0 0 1 7 8 9 1 2 (omega arith) (omega arith) (omega arith) (omega arith)

abbrev mapped_groups : List ℕ
mapped_groups = 0 ∷ 0 ∷ 0 ∷ 0 ∷ 0 ∷ 65535 ∷ 2560 ∷ 1 ∷ []

abbrev dns : LookupAddress
dns = record { address = codes "8.8.8.8"; family = 4 }

guarded_lookup-safe_example :
    In dns (resolved (many (dns ∷ [])))
    × All (λ e. is_blocked_ip_address e.address ≡ false) (resolved (many (dns ∷ [])))
unfolding guarded_lookup judge exists_where is_blocked_ip_address split onto_first is_digit is_run
    number_from lower lower_case drop_front drop_end is_octet_text decimal quad_of in_range
    parse_ipv4 is_blocked_ipv4 is_blocked_v4_literal
guarded_lookup-safe_example = guarded_lookup-safe false (many (dns ∷ [])) dns (inl refl)
