-- ===== src/Common/Method.antt =====
-- Methods of an object whose state is `S`: what was changed before an exception stays changed, so the
-- state comes back beside the error too. An `await` lets others change the state.
pub mod Keeps
pub mod Steps
use Prim.Native.Nat.{ℕ}
use mathlib.Core.Bool.{Bool, true, false}
use package.study_os_agent_gateway.Common.Outcome.{Result, ok, raise, Error}

abbrev pub Method : Type 0 → Type 0 → Type 0
Method S A = S → Result A × S

module _ {S A : Type 0} where
  unfoldable pub return : A → Method S A
  return a s = (ok a, s)

  unfoldable pub fail : Error → Method S A
  fail e s = (raise e, s)

  -- Code that only computes.
  unfoldable pub from : Result A → Method S A
  from r s = (r, s)

  -- What is read off the state.
  unfoldable pub read : (S → A) → Method S A
  read f s = (ok (f s), s)

  -- What may raise on the state and leaves it.
  unfoldable pub check : (S → Result A) → Method S A
  check f s = (f s, s)

module _ {S : Type 0} where
  -- An assignment; an `await` after which others have run.
  unfoldable pub modify : (S → S) → Method S (Unit {0})
  modify f s = (ok tt, f s)

  -- `if test: raise error`.
  unfoldable pub fail_if : Bool → Error → Method S (Unit {0})
  fail_if true e s = (raise e, s)
  fail_if false e s = (ok tt, s)

module _ {S T A : Type 0} where
  abbrev pub put_back : (T → S → S) → S → Result A × T → Result A × S
  put_back put s (r, t) = (r, put t s)

  -- A method of the object that stands in a field.
  unfoldable pub within : (S → T) → (T → S → S) → Method T A → Method S A
  within get put m s = put_back put s (m (get s))

module _ {S A B : Type 0} where
  abbrev pub and_then : (A → Method S B) → Result A × S → Result B × S
  and_then f (ok a, s) = f a s
  and_then f (raise e, s) = (raise e, s)

  infixl 5 ◌>>=◌ ◌>>◌
  unfoldable pub ◌>>=◌ : Method S A → (A → Method S B) → Method S B
  unfolding return fail from read check modify fail_if within
  ◌>>=◌ m f s = and_then f (m s)

  abbrev pub ◌>>◌ : Method S A → Method S B → Method S B
  m >> n = m >>= λ _. n

module _ {S A : Type 0} where
  abbrev pub handled : (Error → Method S A) → Result A × S → Result A × S
  handled h (ok a, s) = (ok a, s)
  handled h (raise e, s) = h e s

  -- `try: m except: h`.
  unfoldable pub catch : Method S A → (Error → Method S A) → Method S A
  unfolding return fail from read check modify fail_if within
  catch m h s = handled h (m s)

  abbrev pub lastly : (S → S) → Result A × S → Result A × S
  lastly f (r, s) = (r, f s)

  -- `try: m finally: f`.
  unfoldable pub finally : Method S A → (S → S) → Method S A
  unfolding return fail from read check modify fail_if within
  finally m f s = lastly f (m s)
