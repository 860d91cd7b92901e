-- ===== src/Harness/Rules.antt =====
-- Postconditions of programs, by outcome, with a rule for each way to build a program.
use cobble_companion.Base.{◌≡◌, refl, Bool, true, false, if◌then◌else◌, Option, none, some}
use cobble_companion.Harness.Effects.{
  Run, Outcome, value, threw, dropped, out_of_fuel, Prog, pure, throw, gets, or_throw, modify,
  continue, ◌>>=◌, caught, catch,
}
use cobble_companion.Harness.Turn.{attempt}

-- What holds of the outcome of a program, where `P` holds before it.
pub record Ensures {W A : Type 0} (P : Run W → Type 0) (m : Prog W A)
    (Q : Outcome A → Run W → Type 0) : Type 0 where
  pub at : (r : Run W) → P r → Q (m r).0 (m r).1

-- `P` holds after the run, on every outcome, and fuel does not run out.
abbrev pub After : {W A : Type 0} → (Run W → Type 0) → Outcome A → Run W → Type 0
After P (value _) r = P r
After P threw r = P r
After P dropped r = P r
After P out_of_fuel r = ⊥

abbrev pub Keeps : {W A : Type 0} → (Run W → Type 0) → Prog W A → Type 0
Keeps P m = Ensures P m (After P)

module _ {W A : Type 0} {P : Run W → Type 0} where
  pub Keeps-pure : (a : A) → Keeps P (pure a)
  unfolding pure
  Keeps-pure a = record { at = λ r h. h }

  pub Keeps-throw : Keeps P (throw {A = A})
  unfolding throw
  Keeps-throw = record { at = λ r h. h }

  pub Keeps-gets : (f : Run W → A) → Keeps P (gets f)
  unfolding gets
  Keeps-gets f = record { at = λ r h. h }

  pub Keeps-or_throw : (a : Option A) → Keeps P (or_throw a)
  unfolding or_throw
  Keeps-or_throw none = record { at = λ r h. h }
  Keeps-or_throw (some a) = record { at = λ r h. h }

module _ {W : Type 0} {P : Run W → Type 0} where
  pub Keeps-modify : (f : Run W → Run W) → ((r : Run W) → P r → P (f r)) → Keeps P (modify f)
  unfolding modify
  Keeps-modify f h = record { at = h }

module _ {W A : Type 0} {P : Run W → Type 0} {Q : Outcome A → Run W → Type 0} where
  pub Ensures-if :
      (b : Bool) (m n : Prog W A)
      → (b ≡ true → Ensures P m Q)
      → (b ≡ false → Ensures P n Q)
      → Ensures P (if b then m else n) Q
  Ensures-if true m n h k = h refl
  Ensures-if false m n h k = k refl

module _ {W A B : Type 0} {P' : Run W → Type 0} {Q : Outcome B → Run W → Type 0} where
  continue-after :
      (o : Outcome A) (r : Run W) (f : A → Prog W B)
      → After P' o r
      → ((a : A) → Ensures P' (f a) Q)
      → ((s : Run W) → P' s → Q threw s)
      → ((s : Run W) → P' s → Q dropped s)
      → Q (continue o f r).0 (continue o f r).1
  continue-after (value a) r f h k t d = (k a).at r h
  continue-after threw r f h k t d = t r h
  continue-after dropped r f h k t d = d r h
  continue-after out_of_fuel r f h k t d = absurd h

  pub Ensures-bind :
      {P : Run W → Type 0} (m : Prog W A) (f : A → Prog W B)
      → Ensures P m (After P')
      → ((a : A) → Ensures P' (f a) Q)
      → ((s : Run W) → P' s → Q threw s)
      → ((s : Run W) → P' s → Q dropped s)
      → Ensures P (m >>= f) Q
  unfolding ◌>>=◌
  Ensures-bind m f km kf t d = record {
    at = λ r h. continue-after (m r).0 (m r).1 f (km.at r h) kf t d;
  }

module _ {W A B : Type 0} {P : Run W → Type 0} where
  pub Keeps-bind :
      (m : Prog W A) (f : A → Prog W B) → Keeps P m → ((a : A) → Keeps P (f a)) → Keeps P (m >>= f)
  Keeps-bind m f km kf = Ensures-bind m f km kf (λ s h. h) (λ s h. h)

module _ {W A : Type 0} where
  caught-pure :
      (P : Run W → Type 0) (o : Outcome (Option A)) (r : Run W)
      → After P o r
      → After P (caught o (pure none) r).0 (caught o (pure none) r).1
  unfolding pure
  caught-pure P (value a) r h = h
  caught-pure P threw r h = h
  caught-pure P dropped r h = h
  caught-pure P out_of_fuel r h = h

  pub Keeps-attempt : {P : Run W → Type 0} (m : Prog W A) → Keeps P m → Keeps P (attempt m)
  unfolding attempt catch
  Keeps-attempt {P = P} m h = record {
    at = λ r p.
        let whole : Keeps P (m >>= λ a. pure (some a)) =
          Keeps-bind m _ h (λ a. Keeps-pure (some a)) in
        caught-pure P _ _ (whole.at r p);
  }

pub ruleset keeps_rules = (
  Keeps-pure, Keeps-throw, Keeps-gets, Keeps-or_throw, Keeps-modify, Ensures-if, Keeps-bind,
  Keeps-attempt,
)
