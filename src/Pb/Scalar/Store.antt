-- ===== src/Pb/Scalar/Store.antt =====
-- What the integer field decoders store, and where.
use native.Mathlib.Nat.{mod-eq_of_lt, mod-lt, one-le-pow}
use daily_diary.Base.{
  ℕ, zero, suc, ◌+◌, ◌/◌, ◌%◌, ◌^◌, ◌≤◌, ◌<◌, ◌≡◌, refl, ◌∙◌, arith, ◌⊎◌, inl, inr,
}
use daily_diary.Base.{
  List, ◌++◌, length, true, false, Bool-cases, ◌==◌, if◌then◌else◌, Option, IsU64,
}
use daily_diary.Pb.{ErrMsg, Field, Res, ok, fail, fault, integer_too_large, first_error}
use daily_diary.Pb.IStream.{IStream}
use daily_diary.Pb.IStream.Buffer.{buffer}
use daily_diary.Pb.Encode.Varint.{encoding}
use daily_diary.Pb.Decode.{pb_decode_varint}
use daily_diary.Pb.RoundTrip.{decode_encoding}
use daily_diary.Pb.Scalar.{Memory, store, is_int_size, to_unsigned, store_clamped, with_value}
use daily_diary.Pb.Scalar.{pb_dec_varint, pb_dec_uvarint, pb_dec_svarint}

-- An address outside of `size` bytes from `a` on.
abbrev pub IsOutside : ℕ → ℕ → ℕ → Type 0
IsOutside a size x = (x < a) ⊎ (a + size ≤ x)

one_byte_outside :
    (a v x size : ℕ) (mem : Memory)
    → IsOutside a (suc size) x
    → (if x == a then v % 256 else mem x) ≡ mem x
one_byte_outside a v x size mem (inl h) = ground arith
one_byte_outside a v x size mem (inr h) = ground arith

pub store-outside :
    (size v a : ℕ) (mem : Memory) (x : ℕ) → IsOutside a size x → store size v a mem x ≡ mem x
unfolding store
store-outside zero v a mem x h = refl
store-outside (suc size) v a mem x h =
    store-outside size (v / 256) (suc a) (λ y. if y == a then v % 256 else mem y) x (narrow h)
    ∙ one_byte_outside a v x size mem h
  where
    narrow : IsOutside a (suc size) x → IsOutside (suc a) size x
    narrow (inl below) = inl (omega arith)
    narrow (inr above) = inr (omega arith)

store_clamped-outside :
    (clamp : ℕ → ℕ → ℕ) (field : Field) (dest : ℕ) (mem : Memory) (value : ℕ) (s : IStream) (x : ℕ)
    → IsOutside dest field.data_size x
    → (store_clamped clamp field dest mem value s).1 x ≡ mem x
unfolding store_clamped
store_clamped-outside clamp field dest mem value s x h =
    elim (Bool-cases (is_int_size field.data_size)) [
      | inl known ↦ rw (known, store_clamped) (store-outside field.data_size value dest mem x h)
      | inr other ↦ rw (other, store_clamped) refl
    ]

pub with_value-outside :
    (r : Res IStream ℕ) (mem : Memory) (k : ℕ → IStream → Res IStream (Unit {0}) × Memory) (x : ℕ)
    → ((value : ℕ) (t : IStream) → (k value t).1 x ≡ mem x)
    → (with_value r mem k).1 x ≡ mem x
unfolding with_value
with_value-outside (ok value t) mem k x h = h value t
with_value-outside (fail t) mem k x h = refl
with_value-outside fault mem k x h = refl

-- Whatever the stream holds, and whether or not the call succeeds, `pb_dec_varint`,
-- `pb_dec_uvarint` and `pb_dec_svarint` change no byte of memory outside of the `data_size`
-- bytes from `dest` on.
pub integer_decoders-outside :
    (field : Field) (dest : ℕ) (mem : Memory) (s : IStream) (x : ℕ)
    → IsOutside dest field.data_size x
    → ((pb_dec_varint field dest mem s).1 x ≡ mem x)
      × ((pb_dec_uvarint field dest mem s).1 x ≡ mem x)
      × ((pb_dec_svarint field dest mem s).1 x ≡ mem x)
unfolding pb_dec_varint pb_dec_uvarint pb_dec_svarint
integer_decoders-outside field dest mem s x h = (
  with_value-outside _ mem _ x (λ value t. store_clamped-outside _ field dest mem _ t x h),
  with_value-outside _ mem _ x (λ value t. store_clamped-outside _ field dest mem _ t x h),
  with_value-outside _ mem _ x (λ value t. store_clamped-outside _ field dest mem _ t x h),
)

module _ (field : Field) (dest : ℕ) (mem : Memory) (v : ℕ) (s t : IStream)
    (known : is_int_size field.data_size ≡ true) (read : pb_decode_varint s ≡ ok v t) where
  dec_uvarint-fits :
      to_unsigned field.data_size v ≡ v
      → pb_dec_uvarint field dest mem s ≡ (ok tt t, store field.data_size v dest mem)
  unfolding pb_dec_uvarint with_value store_clamped
  dec_uvarint-fits e = ground arith

  dec_uvarint-large :
      (to_unsigned field.data_size v == v) ≡ false
      → pb_dec_uvarint field dest mem s ≡ (
        fail (record t { errmsg = first_error t.errmsg integer_too_large }),
        store field.data_size v dest mem,
      )
  unfolding pb_dec_uvarint with_value store_clamped
  dec_uvarint-large e = ground arith

-- For a field of 1, 2, 4 or 8 bytes, on the shortest varint of a uint64 that fits the field,
-- `pb_dec_uvarint` takes exactly the varint, returns true and stores the number at `dest`.
pb_dec_uvarint-value :
    (field : Field) (dest : ℕ) (mem : Memory) (v : ℕ) (rest : List ℕ) (k : ℕ) (e : Option ErrMsg)
    → is_int_size field.data_size ≡ true
    → IsU64 v
    → v < 256 ^ field.data_size
    → pb_dec_uvarint field dest mem (buffer (encoding v ++ rest) (length (encoding v) + k) e)
      ≡ (ok tt (buffer rest k e), store field.data_size v dest mem)
pb_dec_uvarint-value field dest mem v rest k e known word fits =
    dec_uvarint-fits field dest mem v _ _ known (decode_encoding v rest k e word)
      (mod-eq_of_lt fits)

-- For a field of 1, 2, 4 or 8 bytes, on the shortest varint of a uint64 that does not fit the
-- field, `pb_dec_uvarint` takes the varint and returns false, with "integer too large" where no
-- message was set before, and stores the low bytes of the number all the same.
pub pb_dec_uvarint-too_large :
    (field : Field) (dest : ℕ) (mem : Memory) (v : ℕ) (rest : List ℕ) (k : ℕ) (e : Option ErrMsg)
    → is_int_size field.data_size ≡ true
    → IsU64 v
    → 256 ^ field.data_size ≤ v
    → pb_dec_uvarint field dest mem (buffer (encoding v ++ rest) (length (encoding v) + k) e)
      ≡ (fail (buffer rest k (first_error e integer_too_large)), store field.data_size v dest mem)
pb_dec_uvarint-too_large field dest mem v rest k e known word large =
    dec_uvarint-large field dest mem v _ _ known (decode_encoding v rest k e word) differs
  where
    differs : (to_unsigned field.data_size v == v) ≡ false
    differs = ground (arith, mod-lt v (one-le-pow field.data_size 256 (omega arith)))
