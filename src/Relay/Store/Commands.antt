-- ===== src/Relay/Store/Commands.antt =====
-- The methods of `RelayStore` as the steps of one machine.
use fibernuts.Common.{ℕ, String, List, [], ◌∷◌}
use fibernuts.Relay.Protocol.{RegisterOrderInput, PaymentPayload}
use fibernuts.Relay.Store.{OrderRow, register, deliver, read, acknowledge, cancel, cleanup}

pub data Command : Type 0 where
  registering : RegisterOrderInput → Command
  delivering : String → PaymentPayload → Command
  reading acknowledging cancelling : String → Command
  cleaning : ℕ → Command

module _ (sha256 : String → String) where
  -- The table after a call, whatever the call returns.
  unfoldable pub run : Command → ℕ → List OrderRow → List OrderRow
  run (registering input) now rs = (register sha256 input now rs).1
  run (delivering capability payload) now rs = (deliver sha256 capability payload now rs).1
  run (reading capability) now rs = (read sha256 capability now rs).1
  run (acknowledging capability) now rs = (acknowledge sha256 capability now rs).1
  run (cancelling capability) now rs = (cancel sha256 capability now rs).1
  run (cleaning retention) now rs = (cleanup retention now rs).1

  -- A history of calls, each with the clock's reading.
  unfoldable pub run_all : List (ℕ × Command) → List OrderRow → List OrderRow
  run_all [] rs = rs
  run_all ((now, c) ∷ cs) rs = run_all cs (run c now rs)
