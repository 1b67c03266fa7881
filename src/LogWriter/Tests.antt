-- ===== src/LogWriter/Tests.antt =====
-- The theorems on the log file's size at concrete inputs.
use fss_smm_mav.LogWriter.{LogWriter, Write}
use fss_smm_mav.LogWriter.Rotation.{write_all, succeeded, failures_do_not_rotate, Agrees}
use fss_smm_mav.Prelude.{ℕ, Bool, true, false, List, [], ◌∷◌}

abbrev line : Bool → ℕ → Write
line ok size = record { write_ok = ok; reopens = true; line_size = size }

abbrev log : LogWriter
log = record { is_open = true; bytes_written = 0; write_failed = false; rotations = 0 }

abbrev lines : List Write
lines = line true 80 ∷ line false 90 ∷ line true 30 ∷ line true 40 ∷ []

failures_do_not_rotate_example :
    Agrees (write_all 100 log lines) (write_all 100 log (succeeded lines))
failures_do_not_rotate_example = failures_do_not_rotate 100 log lines
