-- ===== src/Record/Layer.antt =====
-- `SessionRecordLayer` (rekaserdoba/src/record.rs): the four directions of one epoch.
use reka_serdoba.Common.{ℕ, List, Result, ok, ◌>>=◌}
use reka_serdoba.Errors.{Error}
use reka_serdoba.Record.Header.{data_record, control_record}
use reka_serdoba.Record.Keys.{EpochKeys}
use reka_serdoba.Record.Sender
use reka_serdoba.Record.Sender.{RecordSender}
use reka_serdoba.Record.Receiver
use reka_serdoba.Record.Receiver.{RecordReceiver}

pub record SessionRecordLayer : Type 0 where
  pub c2s_data : RecordReceiver
  pub s2c_data : RecordSender
  pub c2s_control : RecordReceiver
  pub s2c_control : RecordSender

-- `SessionRecordLayer::new`
unfoldable pub new : List ℕ → ℕ → EpochKeys → ℕ → Result Error SessionRecordLayer
new session_id epoch keys replay_window = do
  c2s_data ← Receiver.new data_record session_id epoch keys.c2s_data replay_window
  c2s_control ← Receiver.new control_record session_id epoch keys.c2s_control replay_window
  ok (record {
    c2s_data = c2s_data;
    s2c_data = Sender.new data_record session_id epoch keys.s2c_data;
    c2s_control = c2s_control;
    s2c_control = Sender.new control_record session_id epoch keys.s2c_control;
  })
