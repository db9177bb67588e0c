-- ===== src/Semaphore/Steps.antt =====
-- What holds of the semaphore over every sequence of calls (utils/datasemaphore/semaphore.go).
use lachesis_base.Base.{
  ◌+◌, ◌-◌, ◌%◌, ◌^◌, ◌≤◌, ◌<◌, ◌≡◌, ◌↔◌, ◌⊎◌, inl, inr, refl, arith, true, false, Bool-cases, some,
  List, [], ◌∷◌, ltb, le→ltb_false, ◌||◌,
}
use lachesis_base.Dag.{Metric}
use lachesis_base.Semaphore.{
  DataSemaphore, WakeUp, Call, try_call, release_call, terminate_call, zero_metric, new,
  try_acquire, acquire, release, terminate, available, step, run,
}

abbrev pub Within : Metric → Metric → Type 0
Within a b = (a.num ≤ b.num) × (a.size ≤ b.size)

-- Terminated, or within the limits, which are those that it started with.
abbrev pub IsSound : Metric → DataSemaphore → Type 0
IsSound limits s =
    (s.max_processing ≡ zero_metric) ⊎ ((s.max_processing ≡ limits) × Within s.processing limits)

step-IsSound :
    (limits : Metric) (c : Call) (s : DataSemaphore) → IsSound limits s → IsSound limits (step c s)
unfolding step try_acquire release terminate
step-IsSound limits (try_call w) s h = ground arith
step-IsSound limits (release_call w) s h = ground arith
step-IsSound limits terminate_call s h = inl refl

run_from-IsSound :
    (limits : Metric) (cs : List Call) (s : DataSemaphore)
    → IsSound limits s
    → IsSound limits (run cs s)
unfolding run
run_from-IsSound limits [] s h = h
run_from-IsSound limits (c ∷ cs) s h =
    run_from-IsSound limits cs (step c s) (step-IsSound limits c s h)

-- Whatever is called on a new semaphore, in any order, it is terminated or still has its limits, and
-- then what it processes is within them, even where a sum wraps.
pub run-IsSound : (limits : Metric) (cs : List Call) → IsSound limits (run cs (new limits))
unfolding new
run-IsSound limits cs =
    run_from-IsSound limits cs (new limits) (inr (refl, (omega arith, omega arith)))

terminated : (s : DataSemaphore) → (terminate s).max_processing ≡ zero_metric
unfolding terminate
terminated s = refl

step-zero :
    (c : Call) (s : DataSemaphore)
    → s.max_processing ≡ zero_metric
    → (step c s).max_processing ≡ zero_metric
unfolding step try_acquire release terminate
step-zero (try_call w) s h = ground arith
step-zero (release_call w) s h = ground arith
step-zero terminate_call s h = refl

run_from-zero :
    (cs : List Call) (s : DataSemaphore)
    → s.max_processing ≡ zero_metric
    → (run cs s).max_processing ≡ zero_metric
unfolding run
run_from-zero [] s h = h
run_from-zero (c ∷ cs) s h = run_from-zero cs (step c s) (step-zero c s h)

-- A semaphore that is terminated gives nothing out any more: no call makes its limits other than
-- zero, and nothing is available.
pub run-terminate :
    (cs : List Call) (s : DataSemaphore)
    → ((run cs (terminate s)).max_processing ≡ zero_metric)
      × (available (run cs (terminate s)) ≡ zero_metric)
unfolding available
run-terminate cs s =
    let zero_limits = run_from-zero cs (terminate s) (terminated s) in
    (zero_limits, rw (available, zero_limits) refl)

-- What was acquired without a wrap and is released leaves the semaphore as it was.
pub try_acquire-release :
    (w : Metric) (s s' : DataSemaphore)
    → s.processing.num + w.num < 2 ^ 32
    → s.processing.size + w.size < 2 ^ 64
    → try_acquire w s ≡ (s', true)
    → release w s' ≡ s
unfolding try_acquire release
try_acquire-release w s s' n z h =
    let over =
      ltb s.max_processing.num ((s.processing.num + w.num) % 2 ^ 32)
      || ltb s.max_processing.size ((s.processing.size + w.size) % 2 ^ 64) in
    elim (Bool-cases over) [
      | inl o ↦ absurd (ground arith)
      | inr o ↦
          let after : record s {
            processing = record {
              num = s.processing.num + w.num;
              size = s.processing.size + w.size;
            };
          }
              ≡ s' =
            ground (arith, n, z) in
          let p : (s.processing.num + w.num + (2 ^ 32 - w.num)) % 2 ^ 32 ≡ s.processing.num =
            omega arith in
          let q : (s.processing.size + w.size + (2 ^ 64 - w.size)) % 2 ^ 64 ≡ s.processing.size =
            omega arith in
          let num_left = le→ltb_false (s.processing.num + w.num) w.num (omega arith) in
          let size_left = le→ltb_false (s.processing.size + w.size) w.size (omega arith) in
          rw (← after) (
            rw (num_left, size_left)
              (λ i. record s { processing = record { num = p i; size = q i } }))
    ]

-- If what is processed is within the limits and the sum does not wrap, then a weight is acquired at
-- once exactly if it is within what is available.
pub try_acquire-available :
    (w : Metric) (s : DataSemaphore)
    → Within s.processing s.max_processing
    → s.processing.num + w.num < 2 ^ 32
    → s.processing.size + w.size < 2 ^ 64
    → ((try_acquire w s).1 ≡ true) ↔ Within w (available s)
unfolding try_acquire available
try_acquire-available w s h n z = (λ e. (ground arith, ground arith), λ (a, b). ground arith)

-- A weight above the limits is not waited for: at its first look `Acquire` refuses it and changes
-- nothing, as long as the sum does not wrap.
pub acquire_heavy :
    (weight : Metric) (w : WakeUp) (ws : List WakeUp)
    → (w.found.max_processing.num < weight.num) ⊎ (w.found.max_processing.size < weight.size)
    → w.found.processing.num + weight.num < 2 ^ 32
    → w.found.processing.size + weight.size < 2 ^ 64
    → acquire weight (w ∷ ws) ≡ some (w.found, false)
unfolding acquire try_acquire
acquire_heavy weight w ws h n z = ground arith
