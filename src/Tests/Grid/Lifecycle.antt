-- ===== src/Tests/Grid/Lifecycle.antt =====
-- The theorems on the calls of the agent, on a coordinator that has lost its registration.
use nycc_grid.Tests.Toy.{toy_platform, toy_runtime}
use nycc_grid.Tests.Grid.{program}
use nycc_grid.Tests.Grid.Receipts.{agent}
use nycc_grid.Base.{nat_beq, if◌then◌else◌, ℕ, suc, ◌≡◌, refl, true, none, some, []}
use nycc_grid.Node.{Agent}
use nycc_grid.Net.{Net, answered}
use nycc_grid.Node.Calls.{pull}
use nycc_grid.Node.Registered.{Pulled, pull-Pulled}

-- 404 to the first call, 200 to the others.
abbrev forgetful : Net ℕ ℕ
forgetful = record {
  answer = λ s call. (suc s, answered (if nat_beq s 0 then 404 else 200, []));
  seconds = λ s. "1";
  nonce = λ s. "fresh";
  monotonic = λ s. s;
  iso_now = λ s. "now";
  entropy = λ s k. [];
  sleep = λ x s. suc s;
  meter = λ s. none;
}

abbrev again : Agent ℕ
again = record agent { registered = true; last_heartbeat = 2 }

pull_returns : pull forgetful agent 0 ≡ (again, 3, some [])
unfolding program
pull_returns = refl

pull-Pulled_example : Pulled forgetful agent 0 again 3 []
pull-Pulled_example = pull-Pulled forgetful agent again 0 3 [] pull_returns
