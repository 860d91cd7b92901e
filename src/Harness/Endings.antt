-- ===== src/Harness/Endings.antt =====
-- How a turn of packages/core/src/harness/harness.ts ends for the one who reads its events.
use cobble_companion.Base.{
  ℕ, ◌≡◌, refl, Bool, true, false, List, [], ◌∷◌, ◌++◌, suc, Text, All, All-append, if◌then◌else◌,
}
use cobble_companion.Approvals.Gate.{TurnCtx}
use cobble_companion.Harness.Messages.{TokenUsage, Message, ChatStreamEvent, failed}
use cobble_companion.Harness.Effects.{
  Env, HarnessOptions, Run, Outcome, value, threw, dropped, out_of_fuel, pure, modify, continue,
  ◌>>=◌, ◌>>◌, caught, catch, emit,
}
use cobble_companion.Harness.Turn.{PreparedTurn, settle, open_stream}
use cobble_companion.Harness.Loop.{dispatched_call, settle_bill, run_loop}
use cobble_companion.Harness.Entry.{
  prepare, take_snapshot, perceive, finish_turn, turn_body, fail_turn, run_turn,
}
use cobble_companion.Harness.Rules.{Ensures, Keeps, Ensures-bind, keeps_rules}
use cobble_companion.Harness.Frames.{
  is_terminal, is_minor, Sends, Frame, Keeps-ask, Keeps-append_message,
}
use cobble_companion.Harness.Finale.{Within}
use cobble_companion.Harness.Plans.{Plan, Result}
use cobble_companion.Harness.Running.{Settles, debit_run_keeps, settle_bill_keeps, Ensures-run_loop}

-- No event yet that ends the stream.
abbrev pub Calm : {W : Type 0} → Run W → Type 0
Calm r = All (λ e. is_terminal e ≡ false) r.events

-- Exactly one event that ends the stream, and it is the last.
abbrev pub Finished : {W : Type 0} → Run W → Type 0
Finished r =
    (before : List ChatStreamEvent) × (last : ChatStreamEvent) × (r.events ≡ before ++ (last ∷ []))
    × (All (λ e. is_terminal e ≡ false) before × (is_terminal last ≡ true))

-- Nothing but the user's message and notes of look-ups is written, and no post-turn read launched.
abbrev pub StoodDown : {W : Type 0} → ℕ → Run W → Type 0
StoodDown n r = Calm r × (All (λ (m : Message). is_minor m ≡ true) r.rows × (r.perceived ≡ n))

-- How a turn ends: superseded, or with its last event, or dropped by the consumer; it does not throw.
abbrev pub TurnEnded : {W : Type 0} → ℕ → Outcome Bool → Run W → Type 0
TurnEnded n (value true) r = StoodDown n r
TurnEnded n (value false) r = Finished r
TurnEnded n threw r = ⊥
TurnEnded n dropped r = Unit {0}
TurnEnded n out_of_fuel r = ⊥

abbrev LoopEnded : {W : Type 0} → ℕ → Outcome Bool → Run W → Type 0
LoopEnded n (value true) r = StoodDown n r
LoopEnded n (value false) r = Finished r
LoopEnded n threw r = Calm r
LoopEnded n dropped r = Unit {0}
LoopEnded n out_of_fuel r = ⊥

module _ (E : Env) (O : HarnessOptions) where
  Sends-Calm : Sends E true Calm
  Sends-Calm = record {
    world = λ r w h. h;
    calm = λ r w e q h. All-append _ r.events (e ∷ []) h (q, tt);
    row = λ r m q h. h;
  }

  Frame-StoodDown : (n : ℕ) → Frame E O (λ _ _. Unit {0}) (StoodDown n)
  unfolding dispatched_call
  Frame-StoodDown n = record {
    sends = record {
      world = λ r w h. h;
      calm = λ r w e q h. (All-append _ r.events (e ∷ []) h.0 (q, tt), h.1);
      row = λ r m q h. (h.0, (All-append _ r.rows (m ∷ []) h.1.0 (q, tt), h.1.1));
    };
    talk = λ r ms h. h;
    meter = λ r u f h. h;
    text = λ r t h. h;
    runs = λ r t c s a h. h;
  }

  Settles-Calm : Settles E Calm
  Settles-Calm = record { spends = λ r w ns h. h; metered = λ r u f h. h }

  Settles-Finished : Settles E Finished
  Settles-Finished = record { spends = λ r w ns h. h; metered = λ r u f h. h }

  Settles-StoodDown : (n : ℕ) → Settles E (StoodDown n)
  Settles-StoodDown n = record { spends = λ r w ns h. h; metered = λ r u f h. h }

  ending :
      (retrieval : TokenUsage) (n : ℕ)
      → Plan E O
          (λ _ _. Unit {0})
          retrieval
          (λ _. StoodDown n)
          Calm
          Calm
          Finished
          Calm
          (λ _. Unit {0})
  unfolding open_stream settle
  ending retrieval n = record {
    frame = λ i. Frame-StoodDown n;
    opens = λ i r b h. h;
    moves = λ i r h. h;
    throws = λ i r h. h.0;
    drops = λ i r h. tt;
    settles = λ i r h. h.0;
    finale = record {
      before = Sends-Calm;
      after = Sends-Calm;
      pays = debit_run_keeps Settles-Calm O retrieval;
      ends = λ r w e q h. (r.events, e, refl, (h, q));
      throws_before = λ r h. h;
      throws_after = λ r h. h;
      drops_before = λ r h. tt;
      drops_after = λ r h. tt;
      drops_last = λ r h. tt;
    };
  }

  closes :
      (retrieval : TokenUsage) (n : ℕ) (o : Outcome Bool) (r : Run E.World)
      → Within (Result (ending retrieval n)) Calm (λ _. Unit {0}) o r
      → LoopEnded n o (settle_bill E O retrieval r)
  closes retrieval n (value true) r h = settle_bill_keeps (Settles-StoodDown n) O retrieval r h.1
  closes retrieval n (value false) r h = settle_bill_keeps Settles-Finished O retrieval r h
  closes retrieval n threw r h = settle_bill_keeps Settles-Calm O retrieval r h
  closes retrieval n dropped r h = tt
  closes retrieval n out_of_fuel r h = h

  Ensures-run_loop_ended :
      (n : ℕ) (ctx : TurnCtx) (prep : PreparedTurn)
      → Ensures (StoodDown n) (run_loop E O ctx prep) (LoopEnded n)
  Ensures-run_loop_ended n ctx prep =
      Ensures-run_loop prep (ending prep.retrieval_usage n) ctx (λ c c' w e. tt) (LoopEnded n)
        (closes prep.retrieval_usage n) (λ r h. tt)

  Keeps-prepare : (n : ℕ) (content : Text) → Keeps (StoodDown n) (prepare E O content)
  unfolding prepare
  Keeps-prepare n content =
      let frame = Frame-StoodDown n in search (keeps_rules, Keeps-ask frame.sends)

  Keeps-take_snapshot : (n : ℕ) → Keeps (StoodDown n) (take_snapshot E O)
  unfolding take_snapshot
  Keeps-take_snapshot n = search (keeps_rules, Keeps-ask (Frame-StoodDown n).sends)

  perceived_lem :
      (n : ℕ) (b : Bool) (r : Run E.World)
      → Finished r
      → let launch =
          if b then modify (λ s. record s { perceived = suc s.perceived }) else pure tt in
        let end = (launch >>= λ _. pure false) r in LoopEnded n end.0 end.1
  unfolding pure modify ◌>>=◌
  perceived_lem n true r h = h
  perceived_lem n false r h = h

  after_loop :
      (n : ℕ) (o : Outcome Bool) (r : Run E.World)
      → LoopEnded n o r
      → let end =
          continue o (λ stale. if stale then pure true else (do perceive E O; pure false)) r in
        LoopEnded n end.0 end.1
  unfolding pure perceive
  after_loop n (value true) r h = h
  after_loop n (value false) r h = perceived_lem n O.perceiving r h
  after_loop n threw r h = h
  after_loop n dropped r h = h
  after_loop n out_of_fuel r h = h

  Ensures-finish_turn :
      (n : ℕ) (ctx : TurnCtx) (prep : PreparedTurn)
      → Ensures (StoodDown n) (finish_turn E O ctx prep) (LoopEnded n)
  unfolding finish_turn ◌>>=◌
  Ensures-finish_turn n ctx prep = record {
    at = λ r p.
        after_loop n (run_loop E O ctx prep r).0 (run_loop E O ctx prep r).1
          ((Ensures-run_loop_ended n ctx prep).at r p);
  }

  Ensures-turn_body :
      (n : ℕ) (ctx : TurnCtx) (content : Text)
      → Ensures (StoodDown n) (turn_body E O ctx content) (LoopEnded n)
  unfolding turn_body is_minor
  Ensures-turn_body n ctx content =
      Ensures-bind _ _ (Keeps-append_message (Frame-StoodDown n).sends _ refl)
        (λ m.
          Ensures-bind _ _ (Keeps-prepare n content)
            (λ prep.
              Ensures-bind _ _ (Keeps-take_snapshot n) (λ _. Ensures-finish_turn n ctx prep)
                (λ r h. h.0) (λ r h. tt))
            (λ r h. h.0) (λ r h. tt))
        (λ r h. h.0) (λ r h. tt)

  resumed :
      (n : ℕ) (b : Bool) (r : Run E.World)
      → Finished r
      → let end = continue {A = Unit {0}} (if b then value tt else dropped) (λ _. pure false) r in
        TurnEnded n end.0 end.1
  unfolding pure
  resumed n true r h = h
  resumed n false r h = tt

  fail_turn-Ended :
      (n : ℕ) (r : Run E.World) → Calm r → let (o, r') = fail_turn E O r in TurnEnded n o r'
  unfolding fail_turn ◌>>=◌ emit pure is_terminal
  fail_turn-Ended n r h = resumed n _ _ (r.events, failed, refl, (h, refl))

  caught-Ended :
      (n : ℕ) (o : Outcome Bool) (r : Run E.World)
      → LoopEnded n o r
      → let (o', r') = caught o (fail_turn E O) r in TurnEnded n o' r'
  caught-Ended n (value true) r h = h
  caught-Ended n (value false) r h = h
  caught-Ended n threw r h = fail_turn-Ended n r h
  caught-Ended n dropped r h = h
  caught-Ended n out_of_fuel r h = h

-- A turn, with whatever its surroundings answer, comes to an end and does not throw. Where it returns
-- that it was superseded, it has written nothing but the user's message and notes of look-ups, sent no
-- event that ends the stream, and launched no post-turn read; where it returns that it was not, it has
-- sent exactly one such event, as its last: a reply, or the error.
pub run_turn-TurnEnded :
    (E : Env) (O : HarnessOptions) (ctx : TurnCtx) (content : Text) (r : Run E.World)
    → StoodDown r.perceived r
    → let (o, r') = run_turn E O ctx content r in TurnEnded r.perceived o r'
unfolding run_turn catch
run_turn-TurnEnded E O ctx content r h =
    caught-Ended E O r.perceived _ _ ((Ensures-turn_body E O r.perceived ctx content).at r h)
