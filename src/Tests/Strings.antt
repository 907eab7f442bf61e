-- ===== src/Tests/Strings.antt =====
-- The decoders of bytes and strings at concrete inputs.
use daily_diary.Base.{ℕ, ◌≡◌, refl, arith, List, [], ◌∷◌, none}
use daily_diary.Base.{length}
use daily_diary.Pb.{ok}
use daily_diary.Base.{◌+◌, ◌++◌, inl, inr}
use daily_diary.Pb.IStream.Buffer.{buffer}
use daily_diary.Pb.Blobs.{pb_dec_bytes, pb_dec_string}
use daily_diary.Pb.Blobs.Bounds.{pb_dec_bytes-outside, pb_dec_string-outside}
use daily_diary.Pb.Blobs.Restores.{pb_enc_string-pb_dec_string}
use daily_diary.Pb.Message.Values.{pb_enc_string}
use daily_diary.Pb.Message.Format.{delimited}
use daily_diary.Pb.OStream.Emits.{Emits}
use daily_diary.Pb.Scalar.{Memory}
use daily_diary.Pb.Encode.Varint.{encoding}
use daily_diary.Tests.Messages.{inner_text, outer_memory}

-- A `pb_realloc` with one block to give.
abbrev one_block : ℕ → ℕ → Memory → ℕ × Memory
one_block ptr size mem = (0x2000, mem)

pb_dec_bytes-outside_example :
    (pb_dec_bytes one_block inner_text 105 outer_memory (buffer (2 ∷ 7 ∷ 8 ∷ []) 3 none)).1 113
    ≡ outer_memory 113
pb_dec_bytes-outside_example =
    pb_dec_bytes-outside one_block inner_text 105 outer_memory 113 refl (inr (omega arith))
      (buffer (2 ∷ 7 ∷ 8 ∷ []) 3 none)

pb_dec_string-outside_example :
    (pb_dec_string one_block inner_text 105 outer_memory (buffer (2 ∷ 7 ∷ 8 ∷ []) 3 none)).1 104
    ≡ outer_memory 104
pb_dec_string-outside_example =
    pb_dec_string-outside one_block inner_text 105 outer_memory 104 refl (inl (omega arith))
      (buffer (2 ∷ 7 ∷ 8 ∷ []) 3 none)

abbrev hello : List ℕ
hello = 104 ∷ 101 ∷ 108 ∷ 108 ∷ 111 ∷ []

pb_enc_string-pb_dec_string_example :
    (mem' : Memory) × (pb_dec_string one_block inner_text 105 outer_memory
        (buffer (encoding 5 ++ (hello ++ (9 ∷ []))) (length (encoding 5) + (5 + 1)) none)
      ≡ (ok tt (buffer (9 ∷ []) 1 none), mem'))
    × Emits (pb_enc_string mem' inner_text 105) (delimited hello)
pb_enc_string-pb_dec_string_example =
    pb_enc_string-pb_dec_string one_block inner_text 105 outer_memory hello (9 ∷ []) 1 none refl
      (omega arith, (omega arith, (omega arith, (omega arith, (omega arith, tt))))) (omega arith)
      (omega arith) (omega arith)
