-- ===== src/Cgroup/Triple.antt =====
-- Hoare triples for sequences of calls, of the results alone: nothing is said of a failure.
use Prim.Native.String.{String}
use dawnshell.Prelude.{ℕ, ◌≡◌, refl, Bool, true, false, Option, none, some, if◌then◌else◌}
use dawnshell.Cgroup.Kernel.{Call, Kernel}
use dawnshell.Cgroup.Run.{
  ◌>>=◌, Failure, Outcome, done, failed, ⊤, Action, pure, fail, or_fail, continue, look,
  raise_again, settle, either, attempt, require, on_answer, either_call,
}

-- `Q` of a result, and nothing of a failure.
abbrev pub IfDone : {W A : Type 0} → (W → A → Type 0) → W × Outcome A → Type 0
IfDone Q (w, done a) = Q w a
IfDone Q (w, failed e) = ⊤

abbrev pub Anywhere : {W : Type 0} → W → Type 0
Anywhere w = ⊤

module _ {W : Type 0} where
  -- From every world where `P` holds, a result of the action is as `Q` says.
  pub record Ensures {A : Type 0} (P : W → Type 0) (m : Action W A) (Q : W → A → Type 0)
      : Type 0 where
    pub holds : (w : W) → P w → IfDone Q (m w)

  -- What a bind goes on with.
  pub bind-done :
      {A B : Type 0} (m : Action W A) (f : A → Action W B) (w w1 : W) (a : A)
      → m w ≡ (w1, done a)
      → (m >>= f) w ≡ f a w1
  unfolding ◌>>=◌ continue
  bind-done m f w w1 a e = rw e refl

  pub bind-look :
      {A B : Type 0} (get : W → W × A) (f : A → Action W B) (w : W)
      → (look get >>= f) w ≡ f (get w).1 (get w).0
  unfolding ◌>>=◌ continue look
  bind-look get f w = refl

  if_done : {A : Type 0} (r : W × Outcome A) → IfDone (λ w a. ⊤) r
  if_done (w, done a) = tt
  if_done (w, failed e) = tt

  pub any-Ensures : {A : Type 0} {P : W → Type 0} (m : Action W A) → Ensures P m (λ w a. ⊤)
  any-Ensures m = record { holds = λ w p. if_done (m w) }

  module _ {A B : Type 0} {Q : W → B → Type 0} where
    continue-IfDone :
        (R : W → A → Type 0) (r : W × Outcome A) (f : A → Action W B)
        → IfDone R r
        → ((a : A) → Ensures (λ w. R w a) (f a) Q)
        → IfDone Q (continue r f)
    unfolding continue
    continue-IfDone R (w, done a) f h k = (k a).holds w h
    continue-IfDone R (w, failed e) f h k = tt

  module _ {A B : Type 0} {P : W → Type 0} {Q : W → B → Type 0} where
    pub bind-Ensures :
        {m : Action W A} {f : A → Action W B} (R : W → A → Type 0)
        → Ensures P m R
        → ((a : A) → Ensures (λ w. R w a) (f a) Q)
        → Ensures P (m >>= f) Q
    bind-Ensures {m} {f} R h k = record {
      holds = λ w p. unfold ◌>>=◌ in continue-IfDone R (m w) f (h.holds w p) k;
    }

    -- What stands before is passed over.
    pub skip-Ensures :
        (m : Action W A) {f : A → Action W B}
        → ((a : A) → Ensures Anywhere (f a) Q)
        → Ensures P (m >>= f) Q
    skip-Ensures m k = bind-Ensures (λ w a. ⊤) (any-Ensures m) k

    -- The value that is there is known to be there.
    pub or_fail-Ensures :
        (o : Option A) (stage : String) (code : ℕ) {f : A → Action W B}
        → ((a : A) → o ≡ some a → Ensures P (f a) Q)
        → Ensures P (or_fail o stage code >>= f) Q
    or_fail-Ensures none stage code k = record {
      holds = λ w p. unfold ◌>>=◌ or_fail fail continue in tt;
    }
    or_fail-Ensures (some a) stage code k = record {
      holds = λ w p. unfold ◌>>=◌ or_fail pure continue in (k a refl).holds w p;
    }

  module _ {A : Type 0} {P : W → Type 0} {Q : W → A → Type 0} where
    pub pure-Ensures : (a : A) → ((w : W) → P w → Q w a) → Ensures P (pure a) Q
    pure-Ensures a h = record { holds = λ w p. unfold pure in h w p }

    pub fail-Ensures : (stage : String) (code : ℕ) → Ensures P (fail stage code) Q
    fail-Ensures stage code = record { holds = λ w p. unfold fail in tt }

    pub if-Ensures :
        (b : Bool) {x y : Action W A}
        → (b ≡ true → Ensures P x Q)
        → (b ≡ false → Ensures P y Q)
        → Ensures P (if b then x else y) Q
    if-Ensures true h k = h refl
    if-Ensures false h k = k refl

  pub look-Ensures :
      {A : Type 0} {P : W → Type 0} {Q : W → A → Type 0} (get : W → W × A)
      → ((w : W) → P w → Q (get w).0 (get w).1)
      → Ensures P (look get) Q
  look-Ensures get h = record { holds = λ w p. unfold look in h w p }

  pub raise_again-Ensures :
      {A : Type 0} {P : W → Type 0} {Q : W → A → Type 0} (e : Failure) → Ensures P (raise_again e) Q
  raise_again-Ensures e = record { holds = λ w p. unfold raise_again in tt }

  weaken :
      {A : Type 0} {Q R : W → A → Type 0} (r : W × Outcome A)
      → ((w : W) (a : A) → Q w a → R w a)
      → IfDone Q r
      → IfDone R r
  weaken (w, done a) k q = k w a q
  weaken (w, failed e) k q = tt

  pub weaken-Ensures :
      {A : Type 0} {P : W → Type 0} (Q : W → A → Type 0) {R : W → A → Type 0} {m : Action W A}
      → ((w : W) (a : A) → Q w a → R w a)
      → Ensures P m Q
      → Ensures P m R
  weaken-Ensures Q {m} k h = record { holds = λ w p. weaken (m w) k (h.holds w p) }

  -- What holds where a test passes.
  pub where-Ensures :
      {A : Type 0} {P : W → Type 0} {Q : W → A → Type 0} {m : Action W A} (b : Bool)
      → (b ≡ true → Ensures P m Q)
      → Ensures P m (λ w a. b ≡ true → Q w a)
  where-Ensures {Q} true h = weaken-Ensures Q (λ w a q _. q) (h refl)
  where-Ensures {m} false h = weaken-Ensures (λ w a. ⊤) (λ w a q e. cc) (any-Ensures m)

  pub both_where-Ensures :
      {A : Type 0} {P : W → Type 0} {Q : W → A → Type 0} {m : Action W A} (b : Bool)
      → Ensures P m Q
      → Ensures (λ w. b ≡ true → P w) m (λ w a. b ≡ true → Q w a)
  both_where-Ensures {m} b h = where-Ensures b (λ e. record { holds = λ w p. h.holds w (p e) })

  settle-IfDone :
      {A B : Type 0} {Q : W → B → Type 0} (R : W → A → Type 0) (r : W × Outcome A)
      (f : A → Action W B) (g : Failure → Action W B)
      → IfDone R r
      → ((a : A) → Ensures (λ w. R w a) (f a) Q)
      → ((e : Failure) → Ensures Anywhere (g e) Q)
      → IfDone Q (settle r f g)
  unfolding settle
  settle-IfDone R (w, done a) f g h k l = (k a).holds w h
  settle-IfDone R (w, failed e) f g h k l = (l e).holds w tt

  pub either-Ensures :
      {A B : Type 0} {P : W → Type 0} {Q : W → B → Type 0} (R : W → A → Type 0) {m : Action W A}
      {f : A → Action W B} {g : Failure → Action W B}
      → Ensures P m R
      → ((a : A) → Ensures (λ w. R w a) (f a) Q)
      → ((e : Failure) → Ensures Anywhere (g e) Q)
      → Ensures P (either m f g) Q
  either-Ensures R {m} {f} {g} h k l = record {
    holds = λ w p. unfold either in settle-IfDone R (m w) f g (h.holds w p) k l;
  }

module _ (K : Kernel) where
  open K use {World}

  answered :
      (Q : World → ⊤ → Type 0) (stage : String) (code : ℕ) (r : World × Option ℕ)
      → (r.1 ≡ none → Q r.0 tt)
      → IfDone Q (
          continue
            (r.0, done r.1)
            (λ errno. elim errno [ none ↦ pure tt | some e ↦ fail stage code ]))
  unfolding continue pure fail
  answered Q stage code (w, none) h = h refl
  answered Q stage code (w, some e) h = tt

  pub require-Ensures :
      {P : World → Type 0} {Q : World → ⊤ → Type 0} (c : Call) (stage : String) (code : ℕ)
      → ((w : World) → P w → (K.call c w).1 ≡ none → Q (K.call c w).0 tt)
      → Ensures P (require K c stage code) Q
  require-Ensures {Q} c stage code h = record {
    holds = λ w p. unfold require attempt look ◌>>=◌ in answered Q stage code (K.call c w) (h w p);
  }

  on_answer-IfDone :
      {B : Type 0} (Q : World → B → Type 0) (R : World → Type 0) (r : World × Option ℕ)
      (f : Action World B) (g : ℕ → Action World B)
      → R r.0
      → Ensures R f Q
      → ((errno : ℕ) → Ensures Anywhere (g errno) Q)
      → IfDone Q (on_answer K r f g)
  unfolding on_answer
  on_answer-IfDone Q R (w, none) f g h k l = k.holds w h
  on_answer-IfDone Q R (w, some errno) f g h k l = (l errno).holds w tt

  pub either_call-Ensures :
      {B : Type 0} {P : World → Type 0} {Q : World → B → Type 0} (R : World → Type 0) (c : Call)
      {f : Action World B} {g : ℕ → Action World B}
      → ((w : World) → P w → R (K.call c w).0)
      → Ensures R f Q
      → ((errno : ℕ) → Ensures Anywhere (g errno) Q)
      → Ensures P (either_call K c f g) Q
  either_call-Ensures {Q} R c {f} {g} h k l = record {
    holds = λ w p. unfold either_call in on_answer-IfDone Q R (K.call c w) f g (h w p) k l;
  }
