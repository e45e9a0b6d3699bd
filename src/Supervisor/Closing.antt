-- ===== src/Supervisor/Closing.antt =====
-- What closing closes.
use mathlib.Core.List.{append_assoc, append-nil, reverse}
use tego_next.Base.{List, [], ◌∷◌, ◌++◌, ok, err, ◌≡◌, refl, sym, ap, ap₂, subst, ◌∙◌}
use tego_next.Contracts.Diagnostic.{Code, Outcome}
use tego_next.Supervisor.{
  DriverName, DriverSupervisor, new_supervisor, drivers, calls_open, after_open, open_each,
  open_drivers, with_error, close_in_turn, close_drivers,
}

-- What the drivers throw when closed, in order.
abbrev pub errors_of : (DriverName → Outcome (Unit {0})) → List DriverName → List Code
errors_of driver_close [] = []
errors_of driver_close (d ∷ ds) =
    with_error driver_close (driver_close d) [] ++ errors_of driver_close ds

-- Opening stopped after the drivers whose `open` was called: all of them where it returned, and up to
-- the one that threw where it did not.
abbrev pub Stopped :
    (DriverName → Outcome (Unit {0}))
    → List DriverName
    → List DriverName
    → Outcome (Unit {0})
    → Type 0
Stopped driver_open ds called (ok u) = called ≡ ds
Stopped driver_open ds called (err e) =
    (d : DriverName) × (before : List DriverName) × (rest : List DriverName) × (called
      ≡ before ++ d ∷ [])
    × (ds ≡ (before ++ d ∷ []) ++ rest)
    × (driver_open d ≡ err e)

module _ (driver_close : DriverName → Outcome (Unit {0})) where
  error_first :
      (o : Outcome (Unit {0})) (es rest : List Code)
      → with_error driver_close o es ++ rest ≡ es ++ (with_error driver_close o [] ++ rest)
  error_first (ok u) es rest = refl
  error_first (err e) es rest = append_assoc es (e ∷ []) rest

  close_in_turn_calls :
      (ds : List DriverName) (es : List Code) (s : DriverSupervisor)
      → close_in_turn driver_close ds es s
        ≡ (es ++ errors_of driver_close ds, record s { close_calls = s.close_calls ++ ds })
  unfolding close_in_turn
  close_in_turn_calls [] es s = rw (append-nil es, append-nil s.close_calls) refl
  close_in_turn_calls (d ∷ ds) es s =
      close_in_turn_calls ds (with_error driver_close (driver_close d) es)
        (record s { close_calls = s.close_calls ++ d ∷ [] })
      ∙ ap₂ (λ x y. (x, record s { close_calls = y }))
          (error_first (driver_close d) es (errors_of driver_close ds))
          (append_assoc s.close_calls (d ∷ []) ds)

module _ (driver_open : DriverName → Outcome (Unit {0})) where
  -- What a loop over `ds` leaves.
  record IsOpened (ds : List DriverName) (s : DriverSupervisor)
      (r : Outcome (Unit {0}) × DriverSupervisor) : Type 0 where
    called : List DriverName
    left : r.1 ≡ record s { opened = s.opened ++ called; open_calls = s.open_calls ++ called }
    stopped : Stopped driver_open ds called r.0

  further :
      (d : DriverName) (ds : List DriverName) (called : List DriverName) (o : Outcome (Unit {0}))
      → Stopped driver_open ds called o
      → Stopped driver_open (d ∷ ds) (d ∷ called) o
  further d ds called (ok u) h = ap (λ l. d ∷ l) h
  further d ds called (err e) (x, before, rest, p, q, thrown) =
      (x, d ∷ before, rest, ap (λ l. d ∷ l) p, ap (λ l. d ∷ l) q, thrown)

  open_one :
      (o : Outcome (Unit {0})) (d : DriverName) (ds : List DriverName) (s : DriverSupervisor)
      → driver_open d ≡ o
      → IsOpened ds (calls_open d s) (open_each driver_open ds (calls_open d s))
      → IsOpened (d ∷ ds) s (after_open driver_open o (calls_open d s) (open_each driver_open ds))
  open_one (err e) d ds s h k = record {
    called = d ∷ [];
    left = refl;
    stopped = (d, [], ds, refl, refl, h);
  }
  open_one (ok u) d ds s h k = record {
    called = d ∷ k.called;
    left =
        k.left
        ∙ ap₂ (λ x y. record s { opened = x; open_calls = y })
            (append_assoc s.opened (d ∷ []) k.called) (append_assoc s.open_calls (d ∷ []) k.called);
    stopped = further d ds k.called _ k.stopped;
  }

  open_each-IsOpened :
      (ds : List DriverName) (s : DriverSupervisor) → IsOpened ds s (open_each driver_open ds s)
  unfolding open_each
  open_each-IsOpened [] s = record {
    called = [];
    left = rw (append-nil s.opened, append-nil s.open_calls) refl;
    stopped = refl;
  }
  open_each-IsOpened (d ∷ ds) s =
      open_one (driver_open d) d ds s refl (open_each-IsOpened ds (calls_open d s))

abbrev opened_calls : List DriverName → DriverSupervisor
opened_calls called = record { opened = called; open_calls = called; close_calls = [] }

abbrev closed_calls : List DriverName → DriverSupervisor
closed_calls called = record { opened = []; open_calls = called; close_calls = reverse called }

close_opened :
    (driver_close : DriverName → Outcome (Unit {0})) (called : List DriverName)
    → close_drivers driver_close (opened_calls called)
      ≡ (errors_of driver_close (reverse called), closed_calls called)
unfolding close_drivers
close_opened driver_close called =
    close_in_turn_calls driver_close (reverse called) []
      (record (opened_calls called) { opened = [] })

close_again :
    (driver_close : DriverName → Outcome (Unit {0})) (called : List DriverName)
    → close_drivers driver_close (closed_calls called) ≡ ([], closed_calls called)
unfolding close_drivers close_in_turn
close_again driver_close called = refl

abbrev Closed :
    (DriverName → Outcome (Unit {0}))
    → (DriverName → Outcome (Unit {0}))
    → List DriverName
    → Outcome (Unit {0})
    → DriverSupervisor
    → List Code × DriverSupervisor
    → Type 0
Closed driver_open driver_close ds o s r =
    Stopped driver_open ds s.open_calls o
    × (r.1.close_calls ≡ reverse s.open_calls)
    × (r.0 ≡ errors_of driver_close (reverse s.open_calls))
    × (close_drivers driver_close r.1 ≡ ([], r.1))

closing :
    (driver_open driver_close : DriverName → Outcome (Unit {0})) (ds : List DriverName)
    (o : Outcome (Unit {0})) (s : DriverSupervisor) (called : List DriverName)
    → s ≡ opened_calls called
    → Stopped driver_open ds called o
    → Closed driver_open driver_close ds o s (close_drivers driver_close s)
closing driver_open driver_close ds o s called e h =
    subst (λ s. Closed driver_open driver_close ds o s (close_drivers driver_close s)) (sym e)
      (subst (Closed driver_open driver_close ds o (opened_calls called))
        (sym (close_opened driver_close called)) (h, refl, refl, close_again driver_close called))

-- Whatever the drivers do when they are opened and closed: opening calls them in order, up to and
-- with the first that throws, whose error it throws; closing then closes exactly those that were
-- called, once each and in the opposite order, and returns what they threw in that order; and
-- closing again does nothing.
pub open_then_close :
    (driver_open driver_close : DriverName → Outcome (Unit {0}))
    → let (o, s) = open_drivers driver_open new_supervisor in
      let (es, t) = close_drivers driver_close s in
      Stopped driver_open drivers s.open_calls o
      × (t.close_calls ≡ reverse s.open_calls)
      × (es ≡ errors_of driver_close (reverse s.open_calls))
      × (close_drivers driver_close t ≡ ([], t))
unfolding open_drivers
open_then_close driver_open driver_close =
    let k = open_each-IsOpened driver_open drivers new_supervisor in
    closing driver_open driver_close drivers _ _ k.called k.left k.stopped
