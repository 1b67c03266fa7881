-- ===== src/Config/Holds.antt =====
-- What holds of a value that a step of loadFmuConfig (src/fmu-config.cpp) returns.
use fss_smm_mav.Config.{◌>>=◌, or_throw, Failure, Result, loaded, thrown}
use fss_smm_mav.Prelude.{◌≡◌, refl, Bool, true, false, Option, none, some, if◌then◌else◌}

-- What holds of a value that is returned, if one is.
pub data Holds {A : Type 0} (P : A → Type 0) : Result A → Type 0 where
  holds : {a : A} → P a → Holds P (loaded a)
  fails : {e : Failure} → Holds P (thrown e)

pub of_Holds : {A : Type 0} {P : A → Type 0} (a : A) → Holds P (loaded a) → P a
of_Holds a (holds p) = p

pub bind-Holds :
    {A B : Type 0} {P : A → Type 0} {Q : B → Type 0} {m : Result A} {f : A → Result B}
    → Holds P m
    → ((a : A) → P a → Holds Q (f a))
    → Holds Q (m >>= f)
bind-Holds (holds {a} p) k = k a p
bind-Holds fails k = fails

pub if-Holds :
    {A : Type 0} {P : A → Type 0} (b : Bool) (x y : Result A)
    → (b ≡ true → Holds P x)
    → (b ≡ false → Holds P y)
    → Holds P (if b then x else y)
if-Holds true x y h k = h refl
if-Holds false x y h k = k refl

pub or_throw-Holds :
    {A : Type 0} (e : Failure) (o : Option A) → Holds (λ (a : A). o ≡ some a) (or_throw e o)
or_throw-Holds e none = fails
or_throw-Holds e (some a) = holds refl

pub any-Holds : {A : Type 0} (m : Result A) → Holds (λ (_ : A). Unit) m
any-Holds (loaded a) = holds tt
any-Holds (thrown e) = fails
