-- ===== src/Pb/Decoder.antt =====
-- The message decoder of pb_decode.c. A decoder changes the memory and moves a stream on.
pub mod Release
pub mod Pointers
pub mod Callbacks
pub mod Fields
pub mod Required
pub mod Rounds
pub mod Messages
pub mod Safe
use daily_diary.Base.{ℕ, Option}
use daily_diary.Pb.{Field, Res, ok, fail, fault}
use daily_diary.Pb.IStream.{IStream}
use daily_diary.Pb.Scalar.{Memory}
use daily_diary.Pb.Blobs.{Outcome}
use daily_diary.Pb.Message.{Env, Extension}

-- The descriptors and extensions of `env`, of which the memory is not used; the function at an
-- address that decodes a callback field, with its descriptor and the address of `arg`; the call of
-- `type->decode` on an extension with a tag and a wire type, `none` for NULL; the allocator, from a
-- pointer and a size to a pointer, 0 for NULL; and the address of `fixed_count_size` in the frame
-- of `pb_decode_noinit` that is called with a depth.
pub record DecodeEnv : Type 0 where
  pub env : Env
  pub decode_callback : ℕ → Field → ℕ → Memory → IStream → Outcome
  pub decode_extension : Extension → Option (ℕ → ℕ → Memory → IStream → Outcome)
  pub pb_realloc : ℕ → ℕ → Memory → ℕ × Memory
  pub pb_free : ℕ → Memory → Memory
  pub fixed_count_at : ℕ → ℕ

-- A call that stores a value, with the memory as it leaves it.
abbrev pub Result : Type 0 → Type 0
Result A = Res IStream A × Memory

-- `if (!…) return false;` before what follows.
unfoldable pub and_with : {A B : Type 0} → Result A → (A → Memory → IStream → Result B) → Result B
and_with (ok a s, mem) k = k a mem s
and_with (fail s, mem) k = (fail s, mem)
and_with (fault, mem) k = (fault, mem)
