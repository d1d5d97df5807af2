-- ===== src/Task/EndingTests.antt =====
-- The ends of a run and of a delivery, for a clock that is written with as many characters as it shows.
use study_os_agent_gateway.Common.{ℕ, zero, suc, some, length, codes, Stdlib, aware}
use study_os_agent_gateway.Task.State.{State, delivering, running}
use study_os_agent_gateway.Task.Record.{Task}
use Prim.Native.String.{String}
use study_os_agent_gateway.Task.Tests.{toy, first}

abbrev unary : ℕ → String
unary zero = String.[]
unary (suc n) = String.◌∷◌ "x" (unary n)

unfoldable clocks : Stdlib
unfolding toy
clocks = record toy { fromisoformat = λ v. some (aware (length (codes v))); isoformat = unary }

abbrev running_task : Task
running_task = record first { state = running }

abbrev delivering_task : Task
delivering_task = record first { state = delivering }
