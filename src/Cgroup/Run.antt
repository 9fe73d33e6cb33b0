-- ===== src/Cgroup/Run.antt =====
-- A sequence of calls that stops at the first failure: the world, and a result or the failure that was
-- reported. The lines of the log are left out.
use Prim.Native.String.{String}
use dawnshell.Prelude.{ℕ, Bool, Option, none, some, if◌then◌else◌}
use dawnshell.Cgroup.Kernel.{Call, Kernel}

-- What `fail_errno` and `fail_message` report, less the text of the error, and their result.
pub record Failure : Type 0 where
  pub stage : String
  pub code : ℕ

pub data Outcome (A : Type 0) : Type 0 where
  done : A → Outcome A
  failed : Failure → Outcome A

abbrev pub ⊤ : Type 0
⊤ = Unit

abbrev pub Action : Type 0 → Type 0 → Type 0
Action W A = W → W × Outcome A

module _ {W : Type 0} {A : Type 0} where
  unfoldable pub pure : A → Action W A
  pure a w = (w, done a)

  unfoldable pub fail : String → ℕ → Action W A
  fail stage code w = (w, failed (record { stage = stage; code = code }))

  -- A computed value, such as a path, whose absence is a failure.
  unfoldable pub or_fail : Option A → String → ℕ → Action W A
  or_fail none stage code = fail stage code
  or_fail (some a) stage code = pure a

  -- A failure of the action is passed over.
  unfoldable pub ignore_failure : Action W A → Action W ⊤
  ignore_failure m w = ((m w).0, done tt)

module _ {W A B : Type 0} where
  unfoldable pub continue : W × Outcome A → (A → Action W B) → W × Outcome B
  continue (w, done a) f = f a w
  continue (w, failed e) f = (w, failed e)

  infixl 5 ◌>>=◌ ◌>>◌
  unfoldable pub ◌>>=◌ : Action W A → (A → Action W B) → Action W B
  (m >>= f) w = continue (m w) f

  abbrev pub ◌>>◌ : Action W A → Action W B → Action W B
  m >> k = m >>= λ _. k

-- `if (condition) …`, and no more otherwise.
abbrev pub when : {W : Type 0} → Bool → Action W ⊤ → Action W ⊤
when condition m = if condition then m else pure tt

-- A look of the kernel: its result is a value also if it fails.
unfoldable pub look : {W A : Type 0} → (W → W × A) → Action W A
look get w = let (w', a) = get w in (w', done a)

unfoldable pub raise_again : {W A : Type 0} → Failure → Action W A
raise_again e w = (w, failed e)

module _ {W A B : Type 0} where
  unfoldable pub settle : W × Outcome A → (A → Action W B) → (Failure → Action W B) → W × Outcome B
  settle (w, done a) f g = f a w
  settle (w, failed e) f g = g e w

  -- `result == 0` and `result != 0`.
  unfoldable pub either : Action W A → (A → Action W B) → (Failure → Action W B) → Action W B
  either m f g w = settle (m w) f g

module _ (K : Kernel) where
  open K use {World}

  unfoldable pub attempt : Call → Action World (Option ℕ)
  attempt c = look (K.call c)

  -- `if (call(…) != 0) return fail_errno(stage, code);`
  unfoldable pub require : Call → String → ℕ → Action World ⊤
  require c stage code =
      attempt c >>= λ errno. elim errno [ none ↦ pure tt | some e ↦ fail stage code ]

  unfoldable pub on_answer :
      {B : Type 0} → World × Option ℕ → Action World B → (ℕ → Action World B) → World × Outcome B
  on_answer (w, none) f g = f w
  on_answer (w, some errno) f g = g errno w

  -- `if (call(…) == 0) …`, and what is done with the `errno` otherwise.
  unfoldable pub either_call :
      {B : Type 0} → Call → Action World B → (ℕ → Action World B) → Action World B
  either_call c f g w = on_answer (K.call c w) f g
