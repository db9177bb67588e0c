-- ===== src/DoubleSign/Tests.antt =====
-- A node that connected a while ago (emitter/doublesign).
use lachesis_base.Base.{◌+◌, ◌≡◌, refl, arith, none, some}
use lachesis_base.DoubleSign.{
  just_connected, SyncStatus, apply, check_since, max_wait, synced_to_emit,
}
use lachesis_base.DoubleSign.Waits.{synced_to_emit_waits}

abbrev status : SyncStatus
status = record {
  peers_num = 3;
  now = 100;
  startup = 1;
  last_connected = 95;
  p2p_synced = 50;
  became_validator = 0;
  external_self_event_created = 0;
  external_self_event_detected = 0;
}

waits : synced_to_emit status 20 ≡ (15, some just_connected)
unfolding synced_to_emit max_wait check_since apply
waits = refl

synced_to_emit_waits_example :
    synced_to_emit (record status { now = 100 + (synced_to_emit status 20).0 }) 20 ≡ (0, none)
synced_to_emit_waits_example = synced_to_emit_waits status 20 (omega arith) (omega arith)
