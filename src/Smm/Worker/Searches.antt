-- ===== src/Smm/Worker/Searches.antt =====
-- What becomes of the searches that SMM gives out: src/smm/smm.cpp.
pub mod Rounds
pub mod Conservation
pub mod Acquire
pub mod Tasks
use mathlib.Core.List.{Perm, append_assoc, append-nil}
use mathlib.Core.List.Perm
use fss_smm_mav.Prelude.{◌≡◌, refl, sym, ap, Option, none, some, List, [], ◌∷◌, ◌++◌}
use fss_smm_mav.Prelude.Conserve.{perm-swap}
use fss_smm_mav.Smm.Search.{SmmSearch, accepted, completed, destroyed}
use fss_smm_mav.Smm.Worker.{Entry, requested, asked_search, search_call, released}

module _ {Handle : Type 0} where
  abbrev pub handles : Option Handle → List Handle
  handles none = []
  handles (some h) = h ∷ []

  abbrev pub held_handles : Option (SmmSearch Handle) → List Handle
  held_handles none = []
  held_handles (some c) = handles c.search_handle

module _ {Conn Asset Handle : Type 0} where
  -- The searches that SMM has given.
  abbrev pub given : List (Entry Conn Asset Handle) → List Handle
  given [] = []
  given (asked_search asset h ∷ es) = handles h ++ given es
  given (_ ∷ es) = given es

  -- Those that are destroyed, or left to whom else has a reference.
  abbrev pub gone : List (Entry Conn Asset Handle) → List Handle
  gone [] = []
  gone (search_call (destroyed h) ∷ es) = h ∷ gone es
  gone (released c ∷ es) = handles c.search_handle ++ gone es
  gone (_ ∷ es) = gone es

  given_cons :
      (e : Entry Conn Asset Handle) (es : List (Entry Conn Asset Handle))
      → given (e ∷ es) ≡ given (e ∷ []) ++ given es
  given_cons (asked_search asset none) es = refl
  given_cons (asked_search asset (some h)) es = refl
  given_cons (requested r) es = refl
  given_cons _ es = refl

  given-append : (es fs : List (Entry Conn Asset Handle)) → given (es ++ fs) ≡ given es ++ given fs
  given-append [] fs = refl
  given-append (e ∷ es) fs =
      rw (given_cons e (es ++ fs), given_cons e es, given-append es fs)
        (sym (append_assoc (given (e ∷ [])) (given es) (given fs)))

  gone_cons :
      (e : Entry Conn Asset Handle) (es : List (Entry Conn Asset Handle))
      → gone (e ∷ es) ≡ gone (e ∷ []) ++ gone es
  gone_cons (search_call (accepted h)) es = refl
  gone_cons (search_call (completed h)) es = refl
  gone_cons (search_call (destroyed h)) es = refl
  gone_cons (released c) es = ap (λ l. l ++ gone es) (sym (append-nil (handles c.search_handle)))
  gone_cons (requested r) es = refl
  gone_cons _ es = refl

  gone-append : (es fs : List (Entry Conn Asset Handle)) → gone (es ++ fs) ≡ gone es ++ gone fs
  gone-append [] fs = refl
  gone-append (e ∷ es) fs =
      rw (gone_cons e (es ++ fs), gone_cons e es, gone-append es fs)
        (sym (append_assoc (gone (e ∷ [])) (gone es) (gone fs)))

  -- With the searches `a` held before and `b` after, none is lost and none is gone twice.
  pub record Balances (a : List Handle) (es : List (Entry Conn Asset Handle)) (b : List Handle)
      : Type 0 where
    pub balance : Perm (gone es ++ b) (given es ++ a)

  pub nothing-Balances : (a : List Handle) → Balances a [] a
  nothing-Balances a = record { balance = Perm.refl a }

  pub append-Balances :
      {a b c : List Handle} (es fs : List (Entry Conn Asset Handle))
      → Balances a es b
      → Balances b fs c
      → Balances a (es ++ fs) c
  append-Balances {a} {b} {c} es fs h k = record {
    balance =
        rw
          (
            given-append es fs,
            gone-append es fs,
            append_assoc (gone es) (gone fs) c,
            append_assoc (given es) (given fs) a,
          )
          (Perm.trans (Perm.append_left (gone es) k.balance) (
            Perm.trans (perm-swap (gone es) (given fs) b) (
              Perm.trans (Perm.append_left (given fs) h.balance)
                (perm-swap (given fs) (given es) a))));
  }
