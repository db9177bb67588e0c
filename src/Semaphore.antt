-- ===== src/Semaphore.antt =====
-- utils/datasemaphore/semaphore.go: the semaphore over the number and the size of events. Its lock
-- makes every operation a step; a goroutine that waits in `Acquire` sees the state at each wake-up.
pub mod Steps
pub mod Tests
use lachesis_base.Base.{
  ℕ, ◌+◌, ◌-◌, ◌%◌, ◌^◌, Bool, true, false, ◌||◌, ◌&&◌, Option, none, some, List, [], ◌∷◌, ltb,
  ◌==◌, if◌then◌else◌,
}
use lachesis_base.Dag.{Metric}

pub record DataSemaphore : Type 0 where
  pub processing : Metric
  pub max_processing : Metric

abbrev pub zero_metric : Metric
zero_metric = record { num = 0; size = 0 }

unfoldable pub new : Metric → DataSemaphore
new max_processing = record { processing = zero_metric; max_processing = max_processing }

-- The sum of two metrics, a uint32 and a uint64.
abbrev pub sum_of : Metric → Metric → Metric
sum_of a b = record { num = (a.num + b.num) % 2 ^ 32; size = (a.size + b.size) % 2 ^ 64 }

-- Their difference, which wraps around below zero.
abbrev pub difference_of : Metric → Metric → Metric
difference_of a b = record {
  num = (a.num + (2 ^ 32 - b.num)) % 2 ^ 32;
  size = (a.size + (2 ^ 64 - b.size)) % 2 ^ 64;
}

-- `tryAcquire`, with the answer.
unfoldable pub try_acquire : Metric → DataSemaphore → DataSemaphore × Bool
try_acquire metric s =
    let tmp = sum_of s.processing metric in
    if ltb s.max_processing.num tmp.num || ltb s.max_processing.size tmp.size
    then (s, false)
    else (record s { processing = tmp }, true)

-- A look of a waiting goroutine: the state that it finds, and whether its deadline is over.
pub record WakeUp : Type 0 where
  pub found : DataSemaphore
  pub is_late : Bool

-- `Acquire` over the looks of its loop; `none` waits for another one.
unfoldable pub acquire : Metric → List WakeUp → Option (DataSemaphore × Bool)
acquire weight [] = none
acquire weight (w ∷ ws) =
    let rest = acquire weight ws in
    let (s, acquired) = try_acquire weight w.found in
    if acquired
    then some (s, true)
    else if ltb w.found.max_processing.size weight.size
        || ltb w.found.max_processing.num weight.num
        || w.is_late
    then some (s, false)
    else rest

-- `Release`: more than what is processed resets to zero, with a warning.
unfoldable pub release : Metric → DataSemaphore → DataSemaphore
release weight s =
    if ltb s.processing.num weight.num || ltb s.processing.size weight.size
    then record s { processing = zero_metric }
    else record s { processing = difference_of s.processing weight }

unfoldable pub terminate : DataSemaphore → DataSemaphore
terminate s = record s { max_processing = zero_metric }

unfoldable pub available : DataSemaphore → Metric
available s =
    if (s.max_processing.num == 0) && (s.max_processing.size == 0) then zero_metric else record {
      num =
          if ltb s.max_processing.num s.processing.num
          then 0
          else s.max_processing.num - s.processing.num;
      size =
          if ltb s.max_processing.size s.processing.size
          then 0
          else s.max_processing.size - s.processing.size;
    }

-- The calls that change the semaphore.
pub data Call : Type 0 where
  try_call : Metric → Call
  release_call : Metric → Call
  terminate_call : Call

unfoldable pub step : Call → DataSemaphore → DataSemaphore
step (try_call w) s = (try_acquire w s).0
step (release_call w) s = release w s
step terminate_call s = terminate s

unfoldable pub run : List Call → DataSemaphore → DataSemaphore
run [] s = s
run (c ∷ cs) s = run cs (step c s)
