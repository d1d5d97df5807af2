-- ===== src/Common/Method/Steps.antt =====
-- Methods one statement at a time: what a program does once it is known what its first statement did.
use mathlib.Core.Path.{◌≡◌, ap}
use mathlib.Core.Bool.{Bool, true, false}
use package.study_os_agent_gateway.Common.Outcome.{Result, ok, raise, Error}
use package.study_os_agent_gateway.Common.Method.{
  Method, check, fail_if, and_then, ◌>>=◌, handled, catch,
}

module _ {S A B : Type 0} (m : Method S A) (f : A → Method S B) (s : S) where
  pub bind-ok : {a : A} {t : S} → m s ≡ (ok a, t) → (m >>= f) s ≡ f a t
  unfolding ◌>>=◌
  bind-ok h = ap (and_then f) h

  pub bind-raise : {e : Error} {t : S} → m s ≡ (raise e, t) → (m >>= f) s ≡ (raise e, t)
  unfolding ◌>>=◌
  bind-raise h = ap (and_then f) h

module _ {S A : Type 0} (m : Method S A) (h : Error → Method S A) (s : S) where
  pub catch-ok : {a : A} {t : S} → m s ≡ (ok a, t) → catch m h s ≡ (ok a, t)
  unfolding catch
  catch-ok eq = ap (handled h) eq

  pub catch-raise : {e : Error} {t : S} → m s ≡ (raise e, t) → catch m h s ≡ h e t
  unfolding catch
  catch-raise eq = ap (handled h) eq

module _ {S A : Type 0} (f : S → Result A) (s : S) where
  pub check-is : {r : Result A} → f s ≡ r → check f s ≡ (r, s)
  unfolding check
  check-is eq = ap (λ r. (r, s)) eq

module _ {S : Type 0} (s : S) where
  pub fail_if-true : {c : Bool} (e : Error) → c ≡ true → fail_if c e s ≡ (raise e, s)
  unfolding fail_if
  fail_if-true {c} e h = ap (λ b. fail_if b e s) h

  pub fail_if-false : {c : Bool} (e : Error) → c ≡ false → fail_if c e s ≡ (ok tt, s)
  unfolding fail_if
  fail_if-false {c} e h = ap (λ b. fail_if b e s) h
