-- ===== src/Common/Python.antt =====
-- The parts of Python's standard library that the gateway calls, as an interface. The datetimes
-- that occur are naive or aware; an aware one is known by its instant, in microseconds of UTC.
use Prim.Native.Nat.{ℕ}
use Prim.Native.String.{String}
use mathlib.Core.Path.{◌≡◌}
use mathlib.Core.Bool.{Bool}
use mathlib.Core.Option.{Option, some}

pub data Datetime : Type 0 where
  naive : ℕ → Datetime
  aware : ℕ → Datetime

pub record Stdlib : Type 0 where
  -- `UUID(value).hex` and `str(UUID(value))`; `none` where the constructor raises.
  pub uuid_hex : String → Option String
  pub uuid_str : String → Option String
  -- `datetime.fromisoformat(value)`; `none` where it raises.
  pub fromisoformat : String → Option Datetime
  -- `value.astimezone(UTC).isoformat()` of an aware datetime.
  pub isoformat : ℕ → String
  -- `str(number)`, and whether `urlsplit(url)` has a query or a fragment.
  pub str_int : ℕ → String
  pub url_has_extra : String → Bool
  -- `not value.strip()`.
  pub is_blank : String → Bool
  -- `value.replace("Z", "+00:00")`.
  pub replace_zulu : String → String

-- What the code relies on: `fromisoformat` reads what `isoformat` writes, with its timezone.
pub record Lawful (lib : Stdlib) : Type 0 where
  pub fromisoformat-isoformat : (t : ℕ) → lib.fromisoformat (lib.isoformat t) ≡ some (aware t)
