-- ===== src/Harness/Billing.antt =====
-- The debit of a run of packages/core/src/harness/harness.ts.
use cobble_companion.Base.{
  ℕ, ◌+◌, ◌≡◌, refl, ◌∙◌, sym, subst, Bool, true, false, ◌&&◌, ◌⊎◌, inl, inr, Bool-cases, ap,
  append-nil, Option, none, some, List, [], ◌∷◌, ◌++◌, Text, ltb, if◌then◌else◌, arith,
}
use cobble_companion.Approvals.Gate.{TurnCtx}
use cobble_companion.Harness.Messages.{TokenUsage, add_usage}
use cobble_companion.Harness.Effects.{
  Env, HarnessOptions, Run, Outcome, value, threw, dropped, out_of_fuel,
}
use cobble_companion.Harness.Turn.{PreparedTurn, deposit, settle, open_stream, debit, debit_run}
use cobble_companion.Harness.Loop.{dispatched_call, close_with, close_stream, settle_bill, run_loop}
use cobble_companion.Harness.Frames.{Sends}
use cobble_companion.Harness.Finale.{Within}
use cobble_companion.Harness.Plans.{Plan, Result}
use cobble_companion.Harness.Running.{Ensures-run_loop}

-- One debit of what a run used, where there is a wallet and something was used.
unfoldable pub bill : HarnessOptions → ℕ → List ℕ
bill O n = if O.metered && ltb 0 n then n ∷ [] else []

module _ (O : HarnessOptions) (retrieval : TokenUsage) (spends : List ℕ) where
  -- The debits before the run, and one of the retrieval and the metered calls.
  abbrev pub Billed : {W : Type 0} → Run W → Type 0
  Billed r = r.spends ≡ spends ++ bill O (retrieval.total_tokens + r.usage.total_tokens)

  -- What is charged, by the outcome of the run. A throw leaves the run unbilled only in a finish path.
  abbrev pub Charged : {W : Type 0} → Outcome Bool → Run W → Type 0
  Charged (value _) r = Billed r
  Charged threw r = Billed r ⊎ ((r.settled ≡ true) × (r.spends ≡ spends))
  Charged dropped r = Billed r ⊎ (r.spends ≡ spends)
  Charged out_of_fuel r = ⊥

  abbrev Unbilled : {W : Type 0} → Bool → Run W → Type 0
  Unbilled settled r = (r.spends ≡ spends) × (r.settled ≡ settled)

  abbrev Paid : {W : Type 0} → Run W → Type 0
  Paid r = Billed r × (r.settled ≡ true)

  abbrev Cut : {W : Type 0} → Run W → Type 0
  Cut r = Unbilled false r ⊎ (Unbilled true r ⊎ Paid r)

module _ (E : Env) (O : HarnessOptions) (retrieval : TokenUsage) (spends : List ℕ) where
  pays :
      (r : Run E.World) → r.spends ≡ spends → Billed O retrieval spends (debit_run E O retrieval r)
  unfolding debit_run debit add_usage bill
  pays r h =
      elim (Bool-cases (O.metered && ltb 0 (retrieval.total_tokens + r.usage.total_tokens))) [
        | inl e ↦ rw (e, e, h) refl
        | inr e ↦ rw (e, e, h, append-nil) refl
      ]

  pays_settled : (r : Run E.World) → (debit_run E O retrieval r).settled ≡ r.settled
  unfolding debit_run debit add_usage
  pays_settled r = ground arith

  Sends-Unbilled : (noisy settled : Bool) → Sends E noisy (Unbilled O retrieval spends settled)
  Sends-Unbilled noisy settled = record {
    world = λ r w h. h;
    calm = λ r w e q h. h;
    row = λ r m q h. h;
  }

  Sends-Paid : Sends E true (Paid O retrieval spends)
  Sends-Paid = record { world = λ r w h. h; calm = λ r w e q h. h; row = λ r m q h. h }

  billing :
      Plan E O
        (λ _ _. Unit {0})
        retrieval
        (λ _. Unbilled O retrieval spends false)
        (Unbilled O retrieval spends true)
        (Paid O retrieval spends)
        (Paid O retrieval spends)
        (Cut O retrieval spends)
        (Cut O retrieval spends)
  unfolding open_stream settle dispatched_call
  billing = record {
    frame = λ i. record {
      sends = Sends-Unbilled false false;
      talk = λ r ms h. h;
      meter = λ r u f h. h;
      text = λ r t h. h;
      runs = λ r t c s a h. h;
    };
    opens = λ i r b h. h;
    moves = λ i r h. h;
    throws = λ i r h. inl h;
    drops = λ i r h. inl h;
    settles = λ i r h. (h.0, refl);
    finale = record {
      before = Sends-Unbilled true true;
      after = Sends-Paid;
      pays = λ r h. (pays r h.0, pays_settled r ∙ h.1);
      ends = λ r w e q h. h;
      throws_before = λ r h. inr (inl h);
      throws_after = λ r h. inr (inr h);
      drops_before = λ r h. inr (inl h);
      drops_after = λ r h. inr (inr h);
      drops_last = λ r h. inr (inr h);
    };
  }

  close_spends : (t : Option Text) (r : Run E.World) → (close_with t r).spends ≡ r.spends
  unfolding close_with deposit
  close_spends none r = refl
  close_spends (some _) r = refl

  -- The `finally` bills what is not settled.
  closes_unbilled :
      (r : Run E.World)
      → Unbilled O retrieval spends false r
      → Billed O retrieval spends (settle_bill E O retrieval r)
  unfolding settle_bill
  closes_unbilled r h =
      let bills = λ (b : Bool). if b then r else debit_run E O retrieval (close_stream r) in
      subst (Billed O retrieval spends) (sym (ap bills h.1))
        (pays (close_stream r) (unfold close_stream in (close_spends r.in_flight r ∙ h.0)))

  settled_stays : (r : Run E.World) → r.settled ≡ true → settle_bill E O retrieval r ≡ r
  unfolding settle_bill
  settled_stays r h = rw h refl

  closes_paid :
      (r : Run E.World)
      → Paid O retrieval spends r
      → Billed O retrieval spends (settle_bill E O retrieval r)
  closes_paid r h = rw (settled_stays r h.1) h.0

  closes :
      (o : Outcome Bool) (r : Run E.World)
      → Within (Result billing) (Cut O retrieval spends) (Cut O retrieval spends) o r
      → Charged O retrieval spends o (settle_bill E O retrieval r)
  closes (value true) r h = closes_unbilled r h.1
  closes (value false) r h = closes_paid r h
  closes threw r (inl h) = inl (closes_unbilled r h)
  closes threw r (inr (inl h)) = rw (settled_stays r h.1) (inr (h.1, h.0))
  closes threw r (inr (inr h)) = inl (closes_paid r h)
  closes dropped r (inl h) = inl (closes_unbilled r h)
  closes dropped r (inr (inl h)) = rw (settled_stays r h.1) (inr h.0)
  closes dropped r (inr (inr h)) = inl (closes_paid r h)
  closes out_of_fuel r h = h

-- A run of the loop, with whatever its surroundings answer, comes to an end. Where it returns, it has
-- debited the wallet once, of the retrieval and of every metered call; where it throws, it has done so
-- too, or it had begun a finish path; where the consumer drops it, it has debited once or not at all.
pub run_loop-Charged :
    (E : Env) (O : HarnessOptions) (ctx : TurnCtx) (prep : PreparedTurn) (r : Run E.World)
    → r.settled ≡ false
    → let (o, r') = run_loop E O ctx prep r in Charged O prep.retrieval_usage r.spends o r'
run_loop-Charged E O ctx prep r h =
    (Ensures-run_loop prep (billing E O prep.retrieval_usage r.spends) ctx (λ c c' w e. tt)
        (Charged O prep.retrieval_usage r.spends) (closes E O prep.retrieval_usage r.spends)
        (λ s k. inr k.0)).at
      r (refl, h)
