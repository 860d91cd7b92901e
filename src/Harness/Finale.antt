-- ===== src/Harness/Finale.antt =====
-- The two finish paths of a run, `finish` and `finishBlocked` of packages/core/src/harness/harness.ts:
-- what they lead to, given what is kept up to the debit, after it, and by the last event.
use cobble_companion.Base.{
  ◌≡◌, refl, Bool, true, false, Option, none, some, List, [], ◌∷◌, ◌++◌, if◌then◌else◌, Text,
}
use cobble_companion.Approvals.Store.{ProposalRow}
use cobble_companion.Harness.Messages.{
  TokenUsage, Citation, Message, ChatStreamEvent, proposed, done, failed,
}
use cobble_companion.Harness.Effects.{
  Env, HarnessOptions, Run, Outcome, value, threw, dropped, out_of_fuel, Prog, modify, emit,
}
use cobble_companion.Harness.Turn.{
  or_message, Held, debit_run, finish, propose_all, preamble, end_held, finish_blocked,
}
use cobble_companion.Harness.Rules.{
  Ensures, After, Keeps, Keeps-pure, Ensures-bind, Keeps-bind, Keeps-attempt, keeps_rules,
}
use cobble_companion.Harness.Frames.{is_terminal, Sends, Keeps-emit, Keeps-append_message}

-- By outcome: `V` of a value, `T` of a throw and `D` of a generator that was dropped.
abbrev pub Within :
    {W A : Type 0}
    → (A → Run W → Type 0)
    → (Run W → Type 0)
    → (Run W → Type 0)
    → Outcome A
    → Run W
    → Type 0
Within V T D (value a) r = V a r
Within V T D threw r = T r
Within V T D dropped r = D r
Within V T D out_of_fuel r = ⊥

-- `S` holds up to the debit, `B` from there to the last event, and `F` after it.
pub record Finale (E : Env) (O : HarnessOptions) (retrieval : TokenUsage)
    (S B F T D : Run E.World → Type 0) : Type 0 where
  pub before : Sends E true S
  pub after : Sends E true B
  pub pays : (r : Run E.World) → S r → B (debit_run E O retrieval r)
  pub ends :
      (r : Run E.World) (w : E.World) (e : ChatStreamEvent)
      → is_terminal e ≡ true
      → B r
      → F (record r { world = w; events = r.events ++ (e ∷ []) })
  pub throws_before : (r : Run E.World) → S r → T r
  pub throws_after : (r : Run E.World) → B r → T r
  pub drops_before : (r : Run E.World) → S r → D r
  pub drops_after : (r : Run E.World) → B r → D r
  pub drops_last : (r : Run E.World) → F r → D r

module _ {E : Env} {P : Run E.World → Type 0} (S : Sends E true P) (O : HarnessOptions) where
  Keeps-preamble : (text : Text) (cs : List Citation) → Keeps P (preamble E O text cs)
  unfolding preamble
  Keeps-preamble text cs = search (keeps_rules, Keeps-append_message S _ refl)

  Keeps-propose_all :
      (ps : List ProposalRow) (last : Option Message) → Keeps P (propose_all E O ps last)
  unfolding propose_all is_terminal
  Keeps-propose_all [] last = Keeps-pure last
  Keeps-propose_all (p ∷ ps) last =
      Keeps-bind _ _ (Keeps-attempt _ (Keeps-append_message S _ refl))
        (λ row. Keeps-bind _ _ (Keeps-emit S (proposed p) refl) (λ _. Keeps-propose_all ps _))

module _ {E : Env} {O : HarnessOptions} {retrieval : TokenUsage} {S B F T D : Run E.World → Type 0}
    (fin : Finale E O retrieval S B F T D) where
  abbrev Ends : Prog E.World (Unit {0}) → Type 0
  Ends m = Ensures B m (Within (λ _. F) T D)

  ended :
      (b : Bool) (r : Run E.World)
      → F r
      → Within {A = Unit {0}} (λ _. F) T D (if b then value tt else dropped) r
  ended true r h = h
  ended false r h = fin.drops_last r h

  Ends-emit : (e : ChatStreamEvent) → is_terminal e ≡ true → Ends (emit E e)
  unfolding emit
  Ends-emit e q = record { at = λ r h. ended _ _ (fin.ends r _ e q h) }

  Ends-end_held :
      (m : Option Message) (reason : Text) (ps : List ProposalRow) → Ends (end_held E O m reason ps)
  unfolding end_held is_terminal
  Ends-end_held (some m) reason ps = Ends-emit (done m) refl
  Ends-end_held none reason ps =
      Ensures-bind _ _ (Keeps-attempt _ (Keeps-append_message fin.after _ refl)) last
        fin.throws_after fin.drops_after
    where
      last :
          (row : Option Message)
          → Ends (elim row [ none ↦ emit E failed | some m ↦ emit E (done m) ])
      last none = Ends-emit failed refl
      last (some m) = Ends-emit (done m) refl

  Ensures-pay : Ensures S (modify (debit_run E O retrieval)) (After B)
  unfolding modify
  Ensures-pay = record { at = fin.pays }

  pub Ensures-finish :
      (text : Text) (cs : List Citation)
      → Ensures S (finish E O text cs retrieval) (Within (λ _. F) T D)
  unfolding finish is_terminal
  Ensures-finish text cs =
      Ensures-bind _ _ (Keeps-append_message fin.before _ refl)
        (λ m.
          Ensures-bind _ _ Ensures-pay (λ _. Ends-emit (done m) refl) fin.throws_after
            fin.drops_after)
        fin.throws_before fin.drops_before

  pub Ensures-finish_blocked :
      (text : Text) (h : Held) (cs : List Citation)
      → Ensures S (finish_blocked E O text h cs retrieval) (Within (λ _. F) T D)
  unfolding finish_blocked
  Ensures-finish_blocked text h cs =
      Ensures-bind _ _ (Keeps-preamble fin.before O text cs)
        (λ spoken.
          Ensures-bind _ _ (Keeps-propose_all fin.before O h.proposals none)
            (λ last.
              Ensures-bind _ _ Ensures-pay
                (λ _. Ends-end_held (or_message spoken last) h.reason h.proposals) fin.throws_after
                fin.drops_after)
            fin.throws_before fin.drops_before)
        fin.throws_before fin.drops_before
