-- ===== src/Store/Runs.antt =====
-- A schedule of critical sections, and the invariant behind it.
use go.Prelude.{List, [], ◌∷◌}
use go.Prelude.Int.{pos}
use go.Store.{new_store_state}
use go.Store.Dispatch.{StoreIsValid}
use go.Store.Schedule.{Section, write, read, erase, run_sections, run_sections-StoreIsValid}

abbrev sections : List Section
sections =
    write (97 ∷ []) (1 ∷ []) (pos 5) 1 (pos 1) ∷ read (97 ∷ []) (pos 9) ∷ erase (98 ∷ []) 2 ∷ []

run_sections-StoreIsValid_example : StoreIsValid (run_sections (new_store_state 4 1000) sections)
run_sections-StoreIsValid_example = run_sections-StoreIsValid 4 1000 sections
