-- ===== src/Tests/Events.antt =====
-- The event manager of tracker_cpp/ at concrete inputs.
use raiezau.Base.{ℕ, ◌≡◌, refl, Bool, true, false, Option, none, some, List, [], ◌∷◌, ◌==◌, arith}
use raiezau.TrackerCpp.EventManager.{Event, EventManager, main_loop}
use raiezau.TrackerCpp.EventManager.Counting.{connected, left, main_loop_over}

-- a listener, a peer and its writer
abbrev events : List (Option Event)
events =
    some (record { fd = 3; auto_delete = false; writer = none })
    ∷ some (record { fd = 4; auto_delete = true; writer = some 2 })
    ∷ some (record { fd = 5; auto_delete = false; writer = none })
    ∷ []

-- all events but the first fail
abbrev handler : ℕ → EventManager → Option (Bool × EventManager)
handler ev m = some (ev == 0, m)

main_loop_over_example :
    main_loop handler ((5 ∷ []) ∷ (4 ∷ []) ∷ []) (connected events 3 4 5 0 1 2)
    ≡ some (true, left events 3 4 5 0 1 2)
main_loop_over_example =
    main_loop_over events 3 4 5 0 1 2 (omega arith) (omega arith) (omega arith) refl refl handler []
      (λ m. refl) (λ m. refl)
