-- ===== src/DoubleSign/Waits.antt =====
-- The wait that `SyncedToEmit` asks for (emitter/doublesign/synced_heuristic.go).
use lachesis_base.Base.{
  ℕ, ◌+◌, ◌≤◌, ◌<◌, ◌≡◌, ◌↔◌, refl, ◌∙◌, arith, false, none, le→ltb_false, ◌==◌,
}
use lachesis_base.DoubleSign.{
  EmitError, SyncStatus, MaxWaitError, apply, check_since, max_wait, synced_to_emit,
}

-- The wait never shrinks, and it is long enough for the time checked.
check_since-ge :
    (now threshold t : ℕ) (err : EmitError) (m : MaxWaitError)
    → (m.wait ≤ (check_since now threshold t err m).wait)
      × (t + threshold ≤ now + (check_since now threshold t err m).wait)
unfolding check_since apply
check_since-ge now threshold t err m = (ground arith, ground arith)

check_since-old :
    (now threshold t : ℕ) (err : EmitError) (m : MaxWaitError)
    → t + threshold ≤ now
    → check_since now threshold t err m ≡ m
unfolding check_since
check_since-old now threshold t err m h = rw (le→ltb_false now (t + threshold) h) refl

-- All the times are at least the threshold ago at a time.
abbrev pub AllOld : SyncStatus → ℕ → ℕ → Type 0
AllOld s threshold now =
    (s.external_self_event_detected + threshold ≤ now)
    × (s.external_self_event_created + threshold ≤ now)
    × (s.became_validator + threshold ≤ now)
    × (s.last_connected + threshold ≤ now)
    × (s.p2p_synced + threshold ≤ now)

max_wait-AllOld :
    (s : SyncStatus) (threshold : ℕ) → AllOld s threshold (s.now + (max_wait s threshold).wait)
unfolding max_wait
max_wait-AllOld s threshold =
    let n = s.now in
    let zero_wait : MaxWaitError = record { wait = 0; wait_err = none } in
    let m1 =
      check_since n threshold s.external_self_event_detected EmitError.self_events_ongoing
        zero_wait in
    let m2 =
      check_since n threshold s.external_self_event_created EmitError.self_events_ongoing m1 in
    let m3 = check_since n threshold s.became_validator EmitError.just_became_validator m2 in
    let m4 = check_since n threshold s.last_connected EmitError.just_connected m3 in
    let a =
      check_since-ge n threshold s.external_self_event_detected EmitError.self_events_ongoing
        zero_wait in
    let b =
      check_since-ge n threshold s.external_self_event_created EmitError.self_events_ongoing m1 in
    let c = check_since-ge n threshold s.became_validator EmitError.just_became_validator m2 in
    let d = check_since-ge n threshold s.last_connected EmitError.just_connected m3 in
    let e = check_since-ge n threshold s.p2p_synced EmitError.just_p2p_synced m4 in
    (
      omega (arith, a.1, b.0, c.0, d.0, e.0),
      omega (arith, b.1, c.0, d.0, e.0),
      omega (arith, c.1, d.0, e.0),
      omega (arith, d.1, e.0),
      e.1,
    )

AllOld-max_wait :
    (s : SyncStatus) (threshold : ℕ)
    → AllOld s threshold s.now
    → max_wait s threshold ≡ record { wait = 0; wait_err = none }
unfolding max_wait
AllOld-max_wait s threshold (a, b, c, d, e) =
    check_since-old s.now threshold s.p2p_synced _ _ e
    ∙ check_since-old s.now threshold s.last_connected _ _ d
    ∙ check_since-old s.now threshold s.became_validator _ _ c
    ∙ check_since-old s.now threshold s.external_self_event_created _ _ b
    ∙ check_since-old s.now threshold s.external_self_event_detected _ _ a

AllOld-synced_to_emit :
    (s : SyncStatus) (threshold : ℕ)
    → 0 < s.peers_num
    → 0 < s.p2p_synced
    → AllOld s threshold s.now
    → synced_to_emit s threshold ≡ (0, none)
unfolding synced_to_emit
AllOld-synced_to_emit s threshold p q h =
    let quiet = AllOld-max_wait s threshold h in
    let peers : (s.peers_num == 0) ≡ false = ground arith in
    let synced : (s.p2p_synced == 0) ≡ false = ground arith in rw (peers, synced, quiet) refl

-- A node may emit at once exactly if it has peers, its synchronization is over, and everything that
-- it waits for is at least the threshold ago.
pub synced_to_emit_iff :
    (s : SyncStatus) (threshold : ℕ)
    → (synced_to_emit s threshold ≡ (0, none))
      ↔ ((0 < s.peers_num) × (0 < s.p2p_synced) × AllOld s threshold s.now)
unfolding synced_to_emit
synced_to_emit_iff s threshold = (
  λ h.
      let peers : 0 < s.peers_num = ground arith in
      let synced : 0 < s.p2p_synced = ground arith in
      let quiet : (max_wait s threshold).wait ≡ 0 = ground arith in
      let (a, b, c, d, e) = max_wait-AllOld s threshold in
      (
        peers,
        synced,
        (
          omega (arith, a, quiet),
          omega (arith, b, quiet),
          omega (arith, c, quiet),
          omega (arith, d, quiet),
          omega (arith, e, quiet),
        ),
      ),
  λ (p, q, old). AllOld-synced_to_emit s threshold p q old,
)

wait_told :
    (s : SyncStatus) (threshold : ℕ)
    → 0 < s.peers_num
    → 0 < s.p2p_synced
    → (synced_to_emit s threshold).0 ≡ (max_wait s threshold).wait
unfolding synced_to_emit
wait_told s threshold p q =
    let peers : (s.peers_num == 0) ≡ false = ground arith in
    let synced : (s.p2p_synced == 0) ≡ false = ground arith in rw (peers, synced) refl

-- A node with peers whose synchronization is over, and that waits as long as it is told, may emit
-- then, if nothing has changed but the time.
pub synced_to_emit_waits :
    (s : SyncStatus) (threshold : ℕ)
    → 0 < s.peers_num
    → 0 < s.p2p_synced
    → synced_to_emit (record s { now = s.now + (synced_to_emit s threshold).0 }) threshold
      ≡ (0, none)
synced_to_emit_waits s threshold p q =
    let told = wait_told s threshold p q in
    AllOld-synced_to_emit (record s { now = s.now + (synced_to_emit s threshold).0 }) threshold p q
      (rw told (max_wait-AllOld s threshold))
