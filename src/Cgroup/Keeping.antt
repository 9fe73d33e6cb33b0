-- ===== src/Cgroup/Keeping.antt =====
-- What every step of a sequence of calls keeps, with what is known of its result.
use Prim.Native.String.{String}
use dawnshell.Prelude.{ℕ, ◌≡◌, refl, Bool, true, false, Option, none, some, if◌then◌else◌}
use dawnshell.Cgroup.Run.{
  ◌>>=◌, Outcome, done, failed, ⊤, Action, pure, fail, or_fail, continue, look,
}
use dawnshell.Cgroup.Triple.{IfDone}

abbrev pub IsAny : {A : Type 0} → A → Type 0
IsAny a = ⊤

module _ {W : Type 0} (Inv : W → Type 0) where
  -- From a world with `Inv` the action leads to one, and a result is as `R` says.
  pub record Keeps {A : Type 0} (R : A → Type 0) (m : Action W A) : Type 0 where
    pub keeps : (w : W) → Inv w → Inv (m w).0
    pub result : (w : W) → Inv w → IfDone (λ w a. R a) (m w)

any-result : {W A : Type 0} (r : W × Outcome A) → IfDone (λ w a. ⊤) r
any-result (w, done a) = tt
any-result (w, failed e) = tt

module _ {W : Type 0} {Inv : W → Type 0} where
  continue-keeps :
      {A B : Type 0} (R : A → Type 0) {Q : B → Type 0} (r : W × Outcome A) (f : A → Action W B)
      → Inv r.0
      → IfDone (λ w a. R a) r
      → ((a : A) → R a → Keeps Inv Q (f a))
      → Inv (continue r f).0 × IfDone (λ w a. Q a) (continue r f)
  unfolding continue
  continue-keeps R (w, done a) f i h k = ((k a h).keeps w i, (k a h).result w i)
  continue-keeps R (w, failed e) f i h k = (i, tt)

  pub bind-Keeps :
      {A B : Type 0} (R : A → Type 0) {Q : B → Type 0} {m : Action W A} {f : A → Action W B}
      → Keeps Inv R m
      → ((a : A) → R a → Keeps Inv Q (f a))
      → Keeps Inv Q (m >>= f)
  bind-Keeps R {m} {f} h k = record {
    keeps = λ w i. unfold ◌>>=◌ in (continue-keeps R (m w) f (h.keeps w i) (h.result w i) k).0;
    result = λ w i. unfold ◌>>=◌ in (continue-keeps R (m w) f (h.keeps w i) (h.result w i) k).1;
  }

  -- Nothing is known of what the first step gives.
  pub then-Keeps :
      {A B : Type 0} {Q : B → Type 0} {m : Action W A} {f : A → Action W B}
      → Keeps Inv IsAny m
      → ((a : A) → Keeps Inv Q (f a))
      → Keeps Inv Q (m >>= f)
  then-Keeps h k = bind-Keeps IsAny h (λ a _. k a)

  pub all-Keeps :
      {A : Type 0} {m : Action W A} → ((w : W) → Inv w → Inv (m w).0) → Keeps Inv IsAny m
  all-Keeps {m} h = record { keeps = h; result = λ w i. any-result (m w) }

  module _ {A : Type 0} {R : A → Type 0} where
    pub pure-Keeps : (a : A) → R a → Keeps Inv R (pure a)
    pure-Keeps a h = record { keeps = λ w i. unfold pure in i; result = λ w i. unfold pure in h }

    pub fail-Keeps : (stage : String) (code : ℕ) → Keeps Inv R (fail stage code)
    fail-Keeps stage code = record {
      keeps = λ w i. unfold fail in i;
      result = λ w i. unfold fail in tt;
    }

    pub look-Keeps :
        (get : W → W × A)
        → ((w : W) → Inv w → Inv (get w).0)
        → ((w : W) → Inv w → R (get w).1)
        → Keeps Inv R (look get)
    look-Keeps get h k = record {
      keeps = λ w i. unfold look in h w i;
      result = λ w i. unfold look in k w i;
    }

    pub if-Keeps :
        (b : Bool) {x y : Action W A}
        → (b ≡ true → Keeps Inv R x)
        → (b ≡ false → Keeps Inv R y)
        → Keeps Inv R (if b then x else y)
    if-Keeps true h k = h refl
    if-Keeps false h k = k refl

  pub or_fail-Keeps :
      {A : Type 0} {R : A → Type 0} (o : Option A) (stage : String) (code : ℕ)
      → ((a : A) → o ≡ some a → R a)
      → Keeps Inv R (or_fail o stage code)
  unfolding or_fail
  or_fail-Keeps none stage code h = fail-Keeps stage code
  or_fail-Keeps (some a) stage code h = pure-Keeps a (h a refl)
