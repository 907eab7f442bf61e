-- ===== src/Tests/Text.antt =====
-- The Base64 functions at concrete inputs.
use daily_diary.Base.{refl, inl, inr, ℕ, ◌≡◌, arith, List, [], ◌∷◌, ◌++◌, ok, some}
use daily_diary.Base64.{f_b64_ntop, f_b64_pton}
use daily_diary.Base64.Print.{text, f_b64_ntop-text}
use daily_diary.Base64.Short.{Refuses, f_b64_ntop-short}
use daily_diary.Base64.Groups.{Parses}
use daily_diary.Base64.Bounds.{IsString, ReturnsWithin, f_b64_pton-within}
use daily_diary.Base64.RoundTrip.{f_b64_pton-text, f_b64_pton-ntop}

-- "Many".
abbrev many : List ℕ
many = 77 ∷ 97 ∷ 110 ∷ 121 ∷ []

abbrev eight : List ℕ
eight = 1 ∷ 2 ∷ 3 ∷ 4 ∷ 5 ∷ 6 ∷ 7 ∷ 8 ∷ []

abbrev nine : List ℕ
nine = 9 ∷ eight

f_b64_ntop-text_example : f_b64_ntop many 4 9 nine ≡ ok 8 ((text many ++ (0 ∷ [])) ++ [])
unfolding text
f_b64_ntop-text_example =
    f_b64_ntop-text many nine 9 (omega arith) (omega arith) (omega arith) (omega arith)

f_b64_ntop-short_example : Refuses (f_b64_ntop many 4 8 eight)
unfolding text
f_b64_ntop-short_example = f_b64_ntop-short many eight 8 (omega arith) (omega arith) (omega arith)

f_b64_pton-text_example : Parses (f_b64_pton (text many ++ (0 ∷ [])) (some eight) 8) 4 many
f_b64_pton-text_example =
    f_b64_pton-text many eight [] 8 (omega arith) (omega arith) (omega arith) (omega arith)

f_b64_pton-ntop_example :
    (n : ℕ) × (t : List ℕ) × (f_b64_ntop many 4 9 nine ≡ ok n t)
    × Parses (f_b64_pton t (some eight) 8) 4 many
unfolding text
f_b64_pton-ntop_example =
    f_b64_pton-ntop many nine eight (omega arith) (omega arith) (omega arith) (omega arith)
      (omega arith)

-- "T Q=", with a pad missing.
abbrev one_pad_short : List ℕ
one_pad_short = 84 ∷ 32 ∷ 81 ∷ 61 ∷ 0 ∷ []

one_pad_short-IsString : IsString one_pad_short
one_pad_short-IsString = inr (
  omega arith,
  omega arith,
  inr (
    omega arith,
    omega arith,
    inr (omega arith, omega arith, inr (omega arith, omega arith, inl refl)),
  ),
)

f_b64_pton-within_example : ReturnsWithin 8 (f_b64_pton one_pad_short (some eight) 8)
f_b64_pton-within_example =
    f_b64_pton-within one_pad_short eight 8 one_pad_short-IsString (omega arith) (omega arith)
