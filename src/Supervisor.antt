-- ===== src/Supervisor.antt =====
-- packages/runtime/src/driver-supervisor.ts: the drivers of a runtime are opened in order and closed
-- in the opposite order. What a driver's `open` and `close` do comes from outside.
pub mod Closing
use mathlib.Core.List.{reverse}
use tego_next.Base.{Bool, true, false, List, [], ◌∷◌, ◌++◌, ok, err}
use tego_next.Contracts.Diagnostic.{Code, Outcome}

pub data DriverName : Type 0 where
  state coordination artifacts process_host secrets : DriverName

-- The drivers opened so far, and the calls made, in order.
pub record DriverSupervisor : Type 0 where
  pub opened : List DriverName
  pub open_calls : List DriverName
  pub close_calls : List DriverName

abbrev pub new_supervisor : DriverSupervisor
new_supervisor = record { opened = []; open_calls = []; close_calls = [] }

-- The order of the constructor's list.
abbrev pub drivers : List DriverName
drivers = state ∷ coordination ∷ artifacts ∷ process_host ∷ secrets ∷ []

abbrev pub calls_open : DriverName → DriverSupervisor → DriverSupervisor
calls_open d s = record s { opened = s.opened ++ d ∷ []; open_calls = s.open_calls ++ d ∷ [] }

-- The first driver that throws ends the loop, and counts as opened.
module _ (driver_open : DriverName → Outcome (Unit {0})) where
  abbrev pub after_open :
      Outcome (Unit {0})
      → DriverSupervisor
      → (DriverSupervisor → Outcome (Unit {0}) × DriverSupervisor)
      → Outcome (Unit {0}) × DriverSupervisor
  after_open (err e) s next = (err e, s)
  after_open (ok u) s next = next s

  unfoldable pub open_each :
      List DriverName → DriverSupervisor → Outcome (Unit {0}) × DriverSupervisor
  open_each [] s = (ok tt, s)
  open_each (d ∷ ds) s = after_open (driver_open d) (calls_open d s) (open_each ds)

  unfoldable pub open_drivers : DriverSupervisor → Outcome (Unit {0}) × DriverSupervisor
  unfolding open_each
  open_drivers s = open_each drivers s

-- Every driver is closed, whatever the others throw; the errors are collected.
module _ (driver_close : DriverName → Outcome (Unit {0})) where
  abbrev pub with_error : Outcome (Unit {0}) → List Code → List Code
  with_error (err e) es = es ++ e ∷ []
  with_error (ok u) es = es

  unfoldable pub close_in_turn :
      List DriverName → List Code → DriverSupervisor → List Code × DriverSupervisor
  close_in_turn [] es s = (es, s)
  close_in_turn (d ∷ ds) es s =
      close_in_turn ds (with_error (driver_close d) es)
        (record s { close_calls = s.close_calls ++ d ∷ [] })

  unfoldable pub close_drivers : DriverSupervisor → List Code × DriverSupervisor
  unfolding close_in_turn
  close_drivers s = close_in_turn (reverse s.opened) [] (record s { opened = [] })
