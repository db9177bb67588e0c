-- ===== src/Semaphore/Tests.antt =====
-- Runs of the semaphore (utils/datasemaphore), and the theorems at them.
use lachesis_base.Base.{◌≡◌, refl, [], ◌∷◌}
use lachesis_base.Dag.{Metric}
use lachesis_base.Semaphore.{
  DataSemaphore, try_call, release_call, new, try_acquire, release, step, run,
}
use lachesis_base.Semaphore.Steps.{IsSound, run-IsSound}

abbrev ten : Metric
ten = record { num = 10; size = 1000 }

abbrev few : Metric
few = record { num = 4; size = 300 }

abbrev many : Metric
many = record { num = 11; size = 300 }

abbrev used : DataSemaphore
used = record { processing = few; max_processing = ten }

abbrev twice : DataSemaphore
twice = record { processing = record { num = 8; size = 600 }; max_processing = ten }

-- The third acquisition is refused, and goes through after a release.
calls_run :
    run (try_call few ∷ try_call few ∷ try_call few ∷ release_call few ∷ []) (new ten) ≡ used
unfolding run step new try_acquire release
calls_run = refl

run-IsSound_example :
    IsSound ten (run (try_call few ∷ try_call many ∷ release_call few ∷ []) (new ten))
run-IsSound_example = run-IsSound ten (try_call few ∷ try_call many ∷ release_call few ∷ [])
