-- ===== src/LogWriter/Rotation.antt =====
-- Failed writes cost no log history, and a file stays below the limit: src/logger.cpp.
use fss_smm_mav.LogWriter.{next_rotation_state, open_fresh, write_line, LogWriter, Write}
use fss_smm_mav.Prelude.{
  ℕ, ◌<◌, ◌≡◌, refl, inl, inr, false, List, [], ◌∷◌, arith, if◌then◌else◌, Bool-cases,
}

abbrev pub write_all : ℕ → LogWriter → List Write → LogWriter
write_all max w [] = w
write_all max w (l ∷ ls) = write_all max (write_line max w l) ls

abbrev pub succeeded : List Write → List Write
succeeded [] = []
succeeded (l ∷ ls) = let rest = succeeded ls in if l.write_ok then l ∷ rest else rest

-- The same file, size and rotations, whatever the note of a failure says.
pub record Agrees (v w : LogWriter) : Type 0 where
  pub is_open : v.is_open ≡ w.is_open
  pub bytes_written : v.bytes_written ≡ w.bytes_written
  pub rotations : v.rotations ≡ w.rotations

failed_write-Agrees :
    (max : ℕ) (v w : LogWriter) (l : Write)
    → Agrees v w
    → l.write_ok ≡ false
    → Agrees (write_line max v l) w
unfolding write_line next_rotation_state
failed_write-Agrees max v w l a e = ground (arith, a.is_open, a.bytes_written, a.rotations)

write_line-Agrees :
    (max : ℕ) (v w : LogWriter) (l : Write)
    → Agrees v w
    → Agrees (write_line max v l) (write_line max w l)
unfolding write_line next_rotation_state open_fresh
write_line-Agrees max v w l a = ground (arith, a.is_open, a.bytes_written, a.rotations)

write_all-Agrees :
    (max : ℕ) (v w : LogWriter) (ls : List Write)
    → Agrees v w
    → Agrees (write_all max v ls) (write_all max w (succeeded ls))
write_all-Agrees max v w [] a = a
write_all-Agrees max v w (l ∷ ls) a = elim (Bool-cases l.write_ok) [
  | inl e ↦ simp e (
      write_all-Agrees max (write_line max v l) (write_line max w l) ls
        (write_line-Agrees max v w l a))
  | inr e ↦
      simp e (write_all-Agrees max (write_line max v l) w ls (failed_write-Agrees max v w l a e))
]

-- Lines that fail to be written leave no trace: the file, its size and the number of rotations are
-- those after the lines that were written alone. So no failure discards a log.
pub failures_do_not_rotate :
    (max : ℕ) (w : LogWriter) (ls : List Write)
    → Agrees (write_all max w ls) (write_all max w (succeeded ls))
failures_do_not_rotate max w ls =
    write_all-Agrees max w w ls (record { is_open = refl; bytes_written = refl; rotations = refl })

write_line-below :
    (max : ℕ) (w : LogWriter) (l : Write)
    → 0 < max
    → w.bytes_written < max
    → (write_line max w l).bytes_written < max
unfolding write_line next_rotation_state open_fresh
write_line-below max w l p h = ground (arith)

-- With a limit above 0, no line leaves the counted size at the limit: the writer has rotated first.
pub size_stays_below_limit :
    (max : ℕ) (w : LogWriter) (ls : List Write)
    → 0 < max
    → w.bytes_written < max
    → (write_all max w ls).bytes_written < max
size_stays_below_limit max w [] p h = h
size_stays_below_limit max w (l ∷ ls) p h =
    size_stays_below_limit max (write_line max w l) ls p (write_line-below max w l p h)
