-- ===== src/Common/Method/Keeps.antt =====
-- An invariant of the state through each way to build a method, as rules for `search`.
use mathlib.Core.Bool.{Bool, true, false}
use package.study_os_agent_gateway.Common.Tests.{if◌then◌else◌}
use package.study_os_agent_gateway.Common.Outcome.{Result, ok, raise, Error, Returns}
use package.study_os_agent_gateway.Common.Method.{
  Method, return, fail, from, read, check, modify, fail_if, and_then, ◌>>=◌, handled, catch,
  finally,
}

-- Whether `m` returns or raises, what holds before it holds after it.
pub record Keeps {S A : Type 0} (P : S → Type 0) (m : Method S A) : Type 0 where
  pub run : (s : S) → P s → P (m s).1

module _ {S A : Type 0} {P : S → Type 0} where
  pub Keeps-return : (a : A) → Keeps P (return a)
  unfolding return
  Keeps-return a = record { run = λ s p. p }

  pub Keeps-fail : (e : Error) → Keeps P (fail {A = A} e)
  unfolding fail
  Keeps-fail e = record { run = λ s p. p }

  pub Keeps-from : (r : Result A) → Keeps P (from r)
  unfolding from
  Keeps-from r = record { run = λ s p. p }

  pub Keeps-read : (f : S → A) → Keeps P (read f)
  unfolding read
  Keeps-read f = record { run = λ s p. p }

  pub Keeps-check : (f : S → Result A) → Keeps P (check f)
  unfolding check
  Keeps-check f = record { run = λ s p. p }

  pub Keeps-if :
      (c : Bool) (m n : Method S A) → Keeps P m → Keeps P n → Keeps P (if c then m else n)
  Keeps-if true m n km kn = km
  Keeps-if false m n km kn = kn

  handled_keeps :
      (h : Error → Method S A)
      → ((e : Error) → Keeps P (h e))
      → (left : Result A × S) → P left.1
      → P (handled h left).1
  handled_keeps h kh (ok a, s) p = p
  handled_keeps h kh (raise e, s) p = (kh e).run s p

  pub Keeps-catch :
      (m : Method S A) (h : Error → Method S A)
      → Keeps P m
      → ((e : Error) → Keeps P (h e))
      → Keeps P (catch m h)
  unfolding catch
  Keeps-catch m h km kh = record { run = λ s p. handled_keeps h kh (m s) (km.run s p) }

  pub Keeps-finally :
      (m : Method S A) (f : S → S) → Keeps P m → ((s : S) → P s → P (f s)) → Keeps P (finally m f)
  unfolding finally
  Keeps-finally m f km kf = record { run = λ s p. let (r, t) = m s in kf t (km.run s p) }

module _ {S : Type 0} {P : S → Type 0} where
  pub Keeps-modify : (f : S → S) → ((s : S) → P s → P (f s)) → Keeps P (modify f)
  unfolding modify
  Keeps-modify f kf = record { run = kf }

  pub Keeps-fail_if : (c : Bool) (e : Error) → Keeps P (fail_if c e)
  unfolding fail_if
  Keeps-fail_if true e = record { run = λ s p. p }
  Keeps-fail_if false e = record { run = λ s p. p }

module _ {S A B : Type 0} {P : S → Type 0} where
  rest_keeps :
      (f : A → Method S B)
      → ((a : A) → Keeps P (f a))
      → (left : Result A × S) → P left.1
      → P (and_then f left).1
  rest_keeps f kf (ok a, s) p = (kf a).run s p
  rest_keeps f kf (raise e, s) p = p

  pub Keeps-bind :
      (m : Method S A) (f : A → Method S B)
      → Keeps P m
      → ((a : A) → Keeps P (f a))
      → Keeps P (m >>= f)
  unfolding ◌>>=◌
  Keeps-bind m f km kf = record { run = λ s p. rest_keeps f kf (m s) (km.run s p) }

  -- The rest may use what is known of a computed value.
  pub Keeps-bind_from :
      (Q : A → Type 0) (r : Result A) (f : A → Method S B)
      → Returns Q r
      → ((a : A) → Q a → Keeps P (f a))
      → Keeps P (from r >>= f)
  unfolding ◌>>=◌ from
  Keeps-bind_from Q (ok a) f q kf = record { run = λ s p. (kf a q).run s p }
  Keeps-bind_from Q (raise e) f q kf = record { run = λ s p. p }

-- The rules for `search`.
pub ruleset keeps_rules = (
  Keeps-return, Keeps-fail, Keeps-from, Keeps-read, Keeps-check, Keeps-if, Keeps-fail_if,
  Keeps-catch, Keeps-bind,
)
