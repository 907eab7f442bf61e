-- ===== src/Base/Results.antt =====
-- What a call of a C function gives, and calls in a row.
use mathlib.Core.Path.{◌≡◌}

-- `ok` is a normal return with what the call stores through its out parameters, `fail` a return of
-- the error value (false, or -1), and `fault` an access outside the memory that the call was
-- given, or another act that C leaves undefined. `S` is what the call changes, as it leaves it.
pub data Res (S A : Type 0) : Type 0 where
  ok : A → S → Res S A
  fail : S → Res S A
  fault : Res S A

infixl 5 ◌>>=◌ ◌>>◌
abbrev pub ◌>>=◌ : {S A B : Type 0} → (S → Res S A) → (A → S → Res S B) → S → Res S B
◌>>=◌ m f s = elim (m s) [ ok a t ↦ f a t | fail t ↦ fail t | fault ↦ fault ]

abbrev pub ◌>>◌ : {S B : Type 0} → (S → Res S (Unit {0})) → (S → Res S B) → S → Res S B
◌>>◌ m k = m >>= λ _. k

module _ {S A B : Type 0} where
  pub >>=-ok :
      (m : S → Res S A) (f : A → S → Res S B) (s : S) {a : A} {t : S}
      → m s ≡ ok a t
      → (m >>= f) s ≡ f a t
  >>=-ok m f s e = rw (e, ◌>>=◌)

  pub >>=-fail :
      (m : S → Res S A) (f : A → S → Res S B) (s : S) {t : S} → m s ≡ fail t → (m >>= f) s ≡ fail t
  >>=-fail m f s e = rw (e, ◌>>=◌)
