-- ===== src/Common/Preserve.antt =====
-- A property of an object that a member function keeps on every outcome, exceptions included.
use mathlib.Core.Option.{Option, none, some}
use mohican.Common.Outcome.{
  Exception, Result, ok, throw, undefined, Method, ◌>>=◌, return, raise, lift, modify, get, require,
  then_do,
}

pub record Keeps {S A : Type 0} (P : S → Type 0) (m : Method S A) : Type 0 where
  pub at : (s : S) → P s → P (m s).1

module _ {S : Type 0} {P : S → Type 0} where
  pub Keeps-return : {A : Type 0} (a : A) → Keeps P (return {S = S} a)
  unfolding return
  Keeps-return a = record { at = λ s h. h }

  pub Keeps-raise : {A : Type 0} (e : Exception) → Keeps P (raise {S = S} {A = A} e)
  unfolding raise
  Keeps-raise e = record { at = λ s h. h }

  pub Keeps-lift : {A : Type 0} (r : Result A) → Keeps P (lift {S = S} r)
  unfolding lift
  Keeps-lift r = record { at = λ s h. h }

  pub Keeps-modify : (f : S → S) → ((s : S) → P s → P (f s)) → Keeps P (modify f)
  unfolding modify
  Keeps-modify f k = record { at = k }

  pub Keeps-get : Keeps P (get {S = S})
  unfolding get
  Keeps-get = record { at = λ s h. h }

  pub Keeps-require : {A : Type 0} (o : Option A) (e : Exception) → Keeps P (require {S = S} o e)
  unfolding require
  Keeps-require none e = Keeps-raise e
  Keeps-require (some a) e = Keeps-return a

  Keeps-then_do :
      {A B : Type 0} (f : A → Method S B)
      → ((a : A) → Keeps P (f a))
      → (r : Result A) (s : S) → P s
      → P (then_do f (r, s)).1
  Keeps-then_do f k (ok a) s h = (k a).at s h
  Keeps-then_do f k (throw e) s h = h
  Keeps-then_do f k undefined s h = h

  pub Keeps-bind :
      {A B : Type 0} (m : Method S A) (f : A → Method S B)
      → Keeps P m
      → ((a : A) → Keeps P (f a))
      → Keeps P (m >>= f)
  unfolding ◌>>=◌
  Keeps-bind m f h k = record { at = λ s p. Keeps-then_do f k (m s).0 (m s).1 (h.at s p) }
