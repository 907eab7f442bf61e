-- ===== src/Pb/Decoder/Safe/Blobs.antt =====
-- The decoders of bytes and strings, and the allocation, return, and stay inside of the array.
use daily_diary.Base.{ℕ, ◌+◌}
use daily_diary.Base.{List, ◌==◌, ltb, not, u32, u64, ◌||◌}
use daily_diary.Pb.{Field, atype, atype_pointer, size_max, Res, ok, fail, fault}
use daily_diary.Pb.IStream.{IStream}
use daily_diary.Pb.Decode.Bounds.{IsInBounds, Follows-refl, Stays, pb_read-Stays}
use daily_diary.Pb.Decode.Loops.{pb_decode_varint32-Stays}
use daily_diary.Pb.Scalar.{Memory, store}
use daily_diary.Pb.Blobs.{store_read, read_into, is_too_large}
use daily_diary.Pb.Blobs.{keep_pointer, allocate_field, place_bytes, pb_dec_bytes}
use daily_diary.Pb.Blobs.{
  place_string, pb_dec_string, place_fixed_length, pb_dec_fixed_length_bytes,
}
use daily_diary.Pb.Decoder.Safe.{
  Ends-error, Follows-Within, Safe, if-Safe, and_then-Safe, with_value-Safe,
}

store_read-Safe :
    (s : IStream) (r : Res IStream (List ℕ)) (a : ℕ) (mem : Memory)
    → Stays s r
    → Safe s (store_read r a mem)
unfolding store_read
store_read-Safe s (ok bs t) a mem p = p
store_read-Safe s (fail t) a mem p = Follows-Within p
store_read-Safe s fault a mem p = p

pub read_into-Safe :
    (count a : ℕ) (mem : Memory) (s : IStream) → IsInBounds s → Safe s (read_into count a mem s)
read_into-Safe count a mem s h = store_read-Safe s _ a mem (pb_read-Stays count s h)

pub pb_dec_fixed_length_bytes-Safe :
    (field : Field) (dest : ℕ) (mem : Memory) (s : IStream)
    → IsInBounds s
    → Safe s (pb_dec_fixed_length_bytes field dest mem s)
unfolding pb_dec_fixed_length_bytes place_fixed_length
pb_dec_fixed_length_bytes-Safe field dest mem s h =
    with_value-Safe s _ mem _ h (pb_decode_varint32-Stays s h) (λ size t k.
      if-Safe (ltb size_max size) t _ _ (λ c. Ends-error t _ k)
        (λ c.
          if-Safe (size == 0) t (ok tt t, store field.data_size 0 dest mem) _
            (λ c. Follows-refl t k)
            (λ c.
              if-Safe (not (size == field.data_size)) t _ _ (λ c. Ends-error t _ k)
                (λ c. read_into-Safe field.data_size dest mem t k))))

module _ (pb_realloc : ℕ → ℕ → Memory → ℕ × Memory) where
  keep_pointer-Safe :
      (pdata : ℕ) (r : ℕ × Memory) (s : IStream)
      → IsInBounds s
      → Safe s (keep_pointer pb_realloc pdata r s)
  keep_pointer-Safe pdata (ptr, mem) s h =
      if-Safe (ptr == 0) s _ (ok tt s, store 8 ptr pdata mem) (λ c. Ends-error s _ h)
        (λ c. Follows-refl s h)

  pub allocate_field-Safe :
      (pdata data_size array_size : ℕ) (mem : Memory) (s : IStream)
      → IsInBounds s
      → Safe s (allocate_field pb_realloc pdata data_size array_size mem s)
  unfolding allocate_field
  allocate_field-Safe pdata data_size array_size mem s h =
      if-Safe (data_size == 0 || array_size == 0) s _ _ (λ c. Ends-error s _ h)
        (λ c.
          if-Safe (is_too_large data_size array_size) s _ _ (λ c. Ends-error s _ h)
            (λ c. keep_pointer-Safe pdata _ s h))

  pub pb_dec_bytes-Safe :
      (field : Field) (dest : ℕ) (mem : Memory) (s : IStream)
      → IsInBounds s
      → Safe s (pb_dec_bytes pb_realloc field dest mem s)
  unfolding pb_dec_bytes place_bytes
  pb_dec_bytes-Safe field dest mem s h =
      with_value-Safe s _ mem _ h (pb_decode_varint32-Stays s h) (λ size t k.
        if-Safe (ltb size_max size) t _ _ (λ c. Ends-error t _ k)
          (λ c.
            if-Safe (ltb (u64 (size + 4)) size) t _ _ (λ c. Ends-error t _ k)
              (λ c.
                if-Safe (atype field.type == atype_pointer) t _ _
                  (λ c.
                    and_then-Safe t _ _ k (allocate_field-Safe dest (u64 (size + 4)) 1 mem t k)
                      (λ m u l. read_into-Safe size _ _ u l))
                  (λ c.
                    if-Safe (ltb field.data_size (u64 (size + 4))) t _ _ (λ c. Ends-error t _ k)
                      (λ c. read_into-Safe size _ _ t k)))))

  pub pb_dec_string-Safe :
      (field : Field) (dest : ℕ) (mem : Memory) (s : IStream)
      → IsInBounds s
      → Safe s (pb_dec_string pb_realloc field dest mem s)
  unfolding pb_dec_string place_string
  pb_dec_string-Safe field dest mem s h =
      with_value-Safe s _ mem _ h (pb_decode_varint32-Stays s h) (λ size t k.
        if-Safe (ltb (u32 (size + 1)) size) t _ _ (λ c. Ends-error t _ k)
          (λ c.
            if-Safe (atype field.type == atype_pointer) t _ _
              (λ c.
                and_then-Safe t _ _ k (allocate_field-Safe dest (u32 (size + 1)) 1 mem t k)
                  (λ m u l. read_into-Safe size _ m u l))
              (λ c.
                if-Safe (ltb field.data_size (u32 (size + 1))) t _ _ (λ c. Ends-error t _ k)
                  (λ c. read_into-Safe size dest mem t k))))
