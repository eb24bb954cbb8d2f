-- ===== src/Synchro/AtomicShared/Tests.antt =====
-- The theorem at a concrete pointer.
use cpp_util.Prelude.{◌≡◌, false, [], ◌∷◌, ok}
use cpp_util.Synchro.AtomicShared.{
  store, exchange, cas, load, apply_all, answers, values_behind, apply_all-register,
}

apply_all-register_example :
    apply_all (store 3 ∷ cas 3 4 ∷ exchange 5 ∷ load ∷ []) (record { ptr = 7; held = false })
    ≡ ok (
      answers (store 3 ∷ cas 3 4 ∷ exchange 5 ∷ load ∷ []) 7,
      record { ptr = values_behind (store 3 ∷ cas 3 4 ∷ exchange 5 ∷ load ∷ []) 7; held = false },
    )
apply_all-register_example = apply_all-register (store 3 ∷ cas 3 4 ∷ exchange 5 ∷ load ∷ []) 7
