-- ===== src/LogWriter.antt =====
-- The size accounting of the log file: src/log-rotation.hpp and Logger::writeLine, openFresh of
-- src/logger.cpp. Whether a write or an open succeeds is an argument; messages on stderr have no
-- model.
pub mod Rotation
mod Tests
use fss_smm_mav.Prelude.{ℕ, ◌+◌, ◌%◌, ◌^◌, Bool, true, false, not, leb, if◌then◌else◌}

pub record RotationState : Type 0 where
  pub bytes_written : ℕ
  pub rotate : Bool

-- On size_t.
unfoldable pub next_rotation_state : Bool → ℕ → ℕ → ℕ → RotationState
next_rotation_state write_ok bytes_written line_size max_log_bytes =
    if not write_ok
    then record { bytes_written = bytes_written; rotate = false }
    else let total = (bytes_written + line_size) % 2 ^ 64 in
      record { bytes_written = total; rotate = leb max_log_bytes total }

-- `rotations` counts the runs of Logger::rotate, each of which discards the oldest log.
pub record LogWriter : Type 0 where
  pub is_open : Bool
  pub bytes_written : ℕ
  pub write_failed : Bool
  pub rotations : ℕ

-- One attempted write: whether it and, if it rotates, the reopening succeed, and the line's size.
pub record Write : Type 0 where
  pub write_ok : Bool
  pub reopens : Bool
  pub line_size : ℕ

unfoldable pub open_fresh : Bool → LogWriter → LogWriter
open_fresh reopens w = record w {
  is_open = reopens;
  bytes_written = 0;
  rotations = w.rotations + 1;
}

unfoldable pub write_line : ℕ → LogWriter → Write → LogWriter
unfolding next_rotation_state open_fresh
write_line max_log_bytes w line =
    let next = next_rotation_state line.write_ok w.bytes_written line.line_size max_log_bytes in
    let counted = record w { bytes_written = next.bytes_written } in
    if not w.is_open
    then w
    else if not line.write_ok
    then record counted { write_failed = true }
    else if next.rotate
    then open_fresh line.reopens (record counted { write_failed = false })
    else record counted { write_failed = false }
