-- ===== src/Sensor/Event.antt =====
-- scaphandre-common/src/lib.rs: the events that the kernel part sends to the sensor.
-- `CpuEventType`
use scaphandre.Base.{ℕ, Bool, true, false}

pub data CpuEventType : Type 0 where
  activation_event idle_event : CpuEventType

-- `CpuStateEvent`
pub record CpuStateEvent : Type 0 where
  pub socket_id : ℕ
  pub event_type : CpuEventType

abbrev pub is_idle : CpuStateEvent → Bool
is_idle e = elim e.event_type [ activation_event ↦ false | idle_event ↦ true ]

abbrev pub is_activation : CpuStateEvent → Bool
is_activation e = elim e.event_type [ activation_event ↦ true | idle_event ↦ false ]
