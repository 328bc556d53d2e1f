-- ===== src/Common/Outcome.antt =====
-- What a C++ call gives back: a value, an exception, or undefined behaviour, with the state that it
-- leaves. The exception classes are those of http_exceptions.h, exceptions_config_file.h and
-- server_settings_exceptions.h, and those that the standard library throws.
use Prim.Native.String.{String}
use mathlib.Core.Option.{Option, none, some}
use mathlib.Core.Path.{◌≡◌, refl}

pub data Exception : Type 0 where
  read_exception : String → Exception
  delim_exception : String → Exception
  prot_version_exception : String → Exception
  method_exception : String → Exception
  wrong_file_type : String → Exception
  no_such_config_file : String → Exception
  invalid_config : String → Exception
  root_not_found_exception : String → Exception
  out_of_range invalid_argument regex_error : Exception

pub data Result {ℓ} (A : Type ℓ) : Type ℓ where
  ok : A → Result A
  throw : Exception → Result A
  undefined : Result A

-- A member function on an object of type `S`: an exception keeps what was written before it.
abbrev pub Method : Type 0 → Type 0 → Type 0
Method S A = S → Result A × S

abbrev pub then_do : {S A B : Type 0} → (A → Method S B) → Result A × S → Result B × S
then_do f (ok a, s) = f a s
then_do f (throw e, s) = (throw e, s)
then_do f (undefined, s) = (undefined, s)

unfoldable pub return : {S A : Type 0} → A → Method S A
return a s = (ok a, s)

unfoldable pub raise : {S A : Type 0} → Exception → Method S A
raise e s = (throw e, s)

-- A call that does not touch the object.
unfoldable pub lift : {S A : Type 0} → Result A → Method S A
lift r s = (r, s)

unfoldable pub modify : {S : Type 0} → (S → S) → Method S (Unit {0})
modify f s = (ok tt, f s)

unfoldable pub get : {S : Type 0} → Method S S
get s = (ok s, s)

-- A value that a search must give, for example a position other than npos.
unfoldable pub require : {S A : Type 0} → Option A → Exception → Method S A
unfolding return raise
require none e = raise e
require (some a) e = return a

-- A proof that steps through a method names this operator; the others open with it.
infixl 5 ◌>>=◌ ◌>>◌
unfoldable pub ◌>>=◌ : {S A B : Type 0} → Method S A → (A → Method S B) → Method S B
unfolding return raise lift modify get require
◌>>=◌ m f s = then_do f (m s)

abbrev pub ◌>>◌ : {S B : Type 0} → Method S (Unit {0}) → Method S B → Method S B
m >> k = m >>= λ _. k

-- The same chain where no object is written.
abbrev pub bind : {A B : Type 0} → Result A → (A → Result B) → Result B
bind (ok a) f = f a
bind (throw e) f = throw e
bind undefined f = undefined

-- Inversion of a chain that gives a value.
pub bind-eq-ok :
    {A B : Type 0} (r : Result A) (f : A → Result B) {b : B}
    → bind r f ≡ ok b
    → (a : A) × (r ≡ ok a) × (f a ≡ ok b)
bind-eq-ok (ok a) f h = (a, refl, h)
bind-eq-ok (throw e) f h = cc
bind-eq-ok undefined f h = cc
