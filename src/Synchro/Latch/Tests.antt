-- ===== src/Synchro/Latch/Tests.antt =====
-- A latch with two to come, and a thread that waits.
use cpp_util.Prelude.{◌≡◌, ok, ◌-◌, leb, if◌then◌else◌, List, [], ◌∷◌}
use cpp_util.Synchro.Latch.{pos, Call, down_call, wait_call, run, downs, waits, run-downs}

abbrev calls : List Call
calls = down_call ∷ wait_call 7 ∷ []

run-downs_example :
    run calls (record { unready_count = pos 2; waiting = [] })
    ≡ ok (
        if leb 2 (downs calls)
        then record { unready_count = pos 0; waiting = [] }
        else record { unready_count = pos (2 - downs calls); waiting = waits calls [] })
run-downs_example = run-downs calls 1 []
