-- ===== src/Net.antt =====
-- What the node of pygrid/node.py and the client of pygrid/client.py meet outside: urllib.request,
-- the clocks, the random source and the meter, over a state that the calls change.
use nycc_grid.Base.{ℕ, String, Option, List, ◌≡◌, refl, ◌⊎◌, inl, inr}
use nycc_grid.Base.Int.{ℤ}
use nycc_grid.Runtime.{Bytes}

-- `urllib.request.Request`, with the timeout of its urlopen
pub record Call (F : Type 0) : Type 0 where
  pub timeout : F
  pub url : String
  pub method : String
  pub body : Bytes
  pub headers : List (String × String)

-- How a call ends: with a status and a body, with a URLError, or with another exception, as a
-- timeout or a reset of the connection while the answer is read.
pub data Answer : Type 0 where
  answered : ℕ × Bytes → Answer
  unreachable : Answer
  broken : Answer

pub Answer-cases :
    (r : Answer) → ((p : ℕ × Bytes) × (r ≡ answered p)) ⊎ ((r ≡ unreachable) ⊎ (r ≡ broken))
Answer-cases (answered p) = inl (p, refl)
Answer-cases unreachable = inr (inl refl)
Answer-cases broken = inr (inr refl)

pub record Net (F S : Type 0) : Type 0 where
  pub answer : S → Call F → S × Answer
  -- `str(int(time.time()))`, a fresh nonce, `time.monotonic()`
  pub seconds : S → String
  pub nonce : S → String
  pub monotonic : S → F
  -- `datetime.now(timezone.utc).isoformat(timespec="milliseconds").replace("+00:00", "Z")`
  pub iso_now : S → String
  -- the draws of the random source from here on
  pub entropy : S → ℕ → Bytes
  -- `time.sleep(seconds)`
  pub sleep : F → S → S
  -- the exit code and the output of the meter, where it ran to its end
  pub meter : S → Option (ℤ × String)
