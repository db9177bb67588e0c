-- ===== src/DoubleSign.antt =====
-- emitter/doublesign: whether a node may emit events (synced_heuristic.go), and whether another
-- instance of it runs (parallel_instance_heuristic.go). A time is a number, the zero time is 0, and
-- differences of times do not overflow.
pub mod Waits
pub mod Tests
use lachesis_base.Base.{
  ℕ, ◌+◌, ◌-◌, Bool, true, false, Option, none, some, List, [], ◌∷◌, ltb, ◌==◌, if◌then◌else◌,
}

pub data EmitError : Type 0 where
  no_connections : EmitError
  p2p_sync_ongoing : EmitError
  self_events_ongoing : EmitError
  just_became_validator : EmitError
  just_connected : EmitError
  just_p2p_synced : EmitError

pub record SyncStatus : Type 0 where
  pub peers_num : ℕ
  pub now : ℕ
  pub startup : ℕ
  pub last_connected : ℕ
  pub p2p_synced : ℕ
  pub became_validator : ℕ
  pub external_self_event_created : ℕ
  pub external_self_event_detected : ℕ

pub record MaxWaitError : Type 0 where
  pub wait : ℕ
  pub wait_err : Option EmitError

unfoldable pub apply : ℕ → EmitError → MaxWaitError → MaxWaitError
apply wait wait_err m =
    if ltb m.wait wait then record { wait = wait; wait_err = some wait_err } else m

-- now - t < threshold
abbrev pub is_recent : ℕ → ℕ → ℕ → Bool
is_recent now threshold t = ltb now (t + threshold)

-- One of the checks: threshold - (now - t) is left to wait.
unfoldable pub check_since : ℕ → ℕ → ℕ → EmitError → MaxWaitError → MaxWaitError
check_since now threshold t err m =
    if is_recent now threshold t then apply (t + threshold - now) err m else m

-- The checks in their order.
unfoldable pub max_wait : SyncStatus → ℕ → MaxWaitError
max_wait s threshold = check_since s.now threshold s.p2p_synced just_p2p_synced (
    check_since s.now threshold s.last_connected just_connected (
      check_since s.now threshold s.became_validator just_became_validator (
        check_since s.now threshold s.external_self_event_created self_events_ongoing (
          check_since s.now threshold s.external_self_event_detected self_events_ongoing
            (record { wait = 0; wait_err = none })))))

unfoldable pub synced_to_emit : SyncStatus → ℕ → ℕ × Option EmitError
synced_to_emit s threshold =
    if s.peers_num == 0
    then (0, some no_connections)
    else if s.p2p_synced == 0
    then (0, some p2p_sync_ongoing)
    else ((max_wait s threshold).wait, (max_wait s threshold).wait_err)

unfoldable pub detect_parallel_instance : SyncStatus → ℕ → Bool
detect_parallel_instance s threshold =
    if ltb s.external_self_event_created s.startup
    then false
    else is_recent s.now threshold s.external_self_event_created
