-- ===== src/Common/Calls.antt =====
-- A kernel function that works on a state and returns an error code: `result = f(...); if (result)
-- return result;` is the bind of these calls, and the state that an error leaves is kept.
use cse_9201_os.Common.{ℕ, Res, done, panic, undefined, diverge, ◌==◌, if◌then◌else◌}

-- `fails` is a return with an error code that is not 0; the other three are those of `Res`.
pub data Out (S A : Type 0) : Type 0 where
  returns : A → S → Out S A
  fails : ℕ → S → Out S A
  panics : Out S A
  undef : Out S A
  diverges : Out S A

abbrev pub Call : Type 0 → Type 0 → Type 0
Call S A = S → Out S A

module _ {S A B : Type 0} where
  abbrev pub and_then : Out S A → (A → Call S B) → Out S B
  and_then (returns a s) k = k a s
  and_then (fails e s) k = fails e s
  and_then panics k = panics
  and_then undef k = undef
  and_then diverges k = diverges

  infixl 5 ◌>>=◌
  abbrev pub ◌>>=◌ : Call S A → (A → Call S B) → Call S B
  m >>= k = λ s. and_then (m s) k

module _ {S A : Type 0} where
  infixl 5 ◌>>◌
  abbrev pub ◌>>◌ : Call S (Unit {0}) → Call S A → Call S A
  m >> k = m >>= λ _. k

  abbrev pub pure : A → Call S A
  pure = returns

  -- `return e;` with an error code
  abbrev pub fail : ℕ → Call S A
  fail = fails

  abbrev pub panic! : Call S A
  panic! s = panics

  -- A function that does not touch the state.
  abbrev pub lift : Res A → Call S A
  lift (done a) s = returns a s
  lift panic s = panics
  lift undefined s = undef
  lift diverge s = diverges

abbrev pub get_state : {S : Type 0} → Call S S
get_state s = returns s s

abbrev pub set_state : {S : Type 0} → S → Call S (Unit {0})
set_state s _ = returns tt s

abbrev pub modify : {S : Type 0} → (S → S) → Call S (Unit {0})
modify f s = returns tt (f s)

-- an error code that a callee handed back as a value
abbrev pub check : {S : Type 0} → ℕ → Call S (Unit {0})
check result = if result == 0 then pure tt else fail result
