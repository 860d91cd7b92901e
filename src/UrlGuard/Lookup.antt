-- ===== src/UrlGuard/Lookup.antt =====
-- What a connection may use.
use cobble_companion.Base.{
  ◌≡◌, inl, inr, Bool, true, false, List, [], ◌∷◌, if◌then◌else◌, All, In, Bool-cases, exists_where,
  arith,
}
use cobble_companion.UrlGuard.Addresses.{
  LookupAddress, BaseAnswer, failed, many, one, GuardedAnswer, all_addresses, first_address, judge,
  guarded_lookup, is_blocked_ip_address,
}

-- The addresses that a host resolved to.
abbrev pub resolved : BaseAnswer → List LookupAddress
resolved failed = []
resolved (many xs) = xs
resolved (one address) = record { address = address; family = 4 } ∷ []

-- The addresses that the connection is given.
abbrev pub given : GuardedAnswer → List LookupAddress
given (all_addresses xs) = xs
given (first_address x) = x ∷ []
given _ = []

none_blocked :
    (xs : List LookupAddress)
    → exists_where (λ e. is_blocked_ip_address e.address) xs ≡ false
    → All (λ e. is_blocked_ip_address e.address ≡ false) xs
unfolding exists_where
none_blocked [] h = tt
none_blocked (x ∷ xs) h = (ground arith, none_blocked xs (ground arith))

judge_lem :
    (all : Bool) (xs : List LookupAddress) (x : LookupAddress)
    → In x (given (judge all xs))
    → In x xs × All (λ e. is_blocked_ip_address e.address ≡ false) xs
unfolding judge
judge_lem all [] x m = absurd m
judge_lem all (y ∷ ys) x m =
    elim (Bool-cases (exists_where (λ e. is_blocked_ip_address e.address) (y ∷ ys))) [
      | inl bad ↦ absurd (rw (bad, judge) at m)
      | inr good ↦ (picked all (rw (good, judge) at m), none_blocked (y ∷ ys) good)
    ]
  where
    picked :
        (every : Bool)
        → In x (given (if every then all_addresses (y ∷ ys) else first_address y))
        → In x (y ∷ ys)
    picked true h = h
    picked false (inl h) = inl h
    picked false (inr h) = absurd h

-- An address that a connection is given is one that the host resolved to, and none that it resolved
-- to is refused: one bad address among them gives the connection nothing.
pub guarded_lookup-safe :
    (all : Bool) (answer : BaseAnswer) (x : LookupAddress)
    → In x (given (guarded_lookup all answer))
    → In x (resolved answer) × All (λ e. is_blocked_ip_address e.address ≡ false) (resolved answer)
unfolding guarded_lookup
guarded_lookup-safe all failed x m = absurd m
guarded_lookup-safe all (many xs) x m = judge_lem all xs x m
guarded_lookup-safe all (one address) x m =
    judge_lem all (record { address = address; family = 4 } ∷ []) x m
