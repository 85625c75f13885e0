-- ===== src/Tofu.antt =====
-- src/transport/espnow/tofu_lock.cpp and include/transport/espnow/tofu_lock.h: the lock of a Lume on
-- the first Director that it hears. A method takes the lock and returns it as the method leaves it.
pub mod Admission
pub mod Session
use nocturnation_stickc.Prelude.{
  leb, ◌==◌, ◌!=◌, if◌then◌else◌, ℕ, ◌-◌, Bool, true, false, not, ◌&&◌,
}
use nocturnation_stickc.Frame.Types.{MessageType, broadcast_source_id, is_performance_range}

-- The private members of the class.
pub record TofuLock : Type 0 where
  pub has_lock : Bool
  pub locked_id : ℕ
  pub last_frame_ms : ℕ

abbrev pub default_timeout_ms : ℕ
default_timeout_ms = 10000

-- The lock as constructed, and after clear().
abbrev pub clear : TofuLock → TofuLock
clear l = record { has_lock = false; locked_id = 0; last_frame_ms = 0 }

abbrev pub unlocked : TofuLock
unlocked = record { has_lock = false; locked_id = 0; last_frame_ms = 0 }

-- `msg_type` is not read.
unfoldable pub admit : TofuLock → MessageType → ℕ → ℕ → ℕ → TofuLock × Bool
admit l msg_type source_id channel now_ms =
    if source_id == broadcast_source_id
    then (l, false)
    else if channel == 11 && not (is_performance_range source_id)
    then (l, false)
    else if not l.has_lock
    then (record { has_lock = true; locked_id = source_id; last_frame_ms = now_ms }, true)
    else if source_id != l.locked_id
    then (l, false)
    else (record l { last_frame_ms = now_ms }, true)

-- The saturating age of the last frame.
abbrev pub age : ℕ → ℕ → ℕ
age now_ms last_frame_ms = if leb last_frame_ms now_ms then now_ms - last_frame_ms else 0

unfoldable pub tick : TofuLock → ℕ → TofuLock × Bool
tick l now_ms =
    if not l.has_lock
    then (l, false)
    else if leb default_timeout_ms (age now_ms l.last_frame_ms)
    then (clear l, true)
    else (l, false)
