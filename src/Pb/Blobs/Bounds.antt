-- ===== src/Pb/Blobs/Bounds.antt =====
-- What the decoders of bytes and strings leave alone.
use daily_diary.Base.{ℕ, suc, ◌+◌, ◌≤◌, ◌≡◌, refl, ◌∙◌, arith, inl, inr}
use daily_diary.Base.{
  List, [], ◌∷◌, length, u32, u64, ltb, not, Bool, true, false, ◌==◌, if◌then◌else◌,
}
use daily_diary.Pb.{Field, atype, atype_pointer, size_max, Res, ok, fail, fault}
use daily_diary.Pb.IStream.{IStream, pb_read}
use daily_diary.Pb.IStream.Length.{pb_read-length}
use daily_diary.Pb.Scalar.{Memory, store}
use daily_diary.Pb.Scalar.Store.{IsOutside, store-outside, with_value-outside}
use daily_diary.Pb.Decode.{pb_decode_varint32}
use daily_diary.Pb.Blobs.{
  store_bytes, store_read, read_into, fill_bytes, fill_string, place_bytes, pb_dec_bytes,
  place_string, Outcome,
}
use daily_diary.Pb.Blobs.{pb_dec_string, place_fixed_length, pb_dec_fixed_length_bytes}

pub store_bytes-outside :
    (bs : List ℕ) (a : ℕ) (mem : Memory) (x : ℕ)
    → IsOutside a (length bs) x
    → store_bytes bs a mem x ≡ mem x
unfolding store_bytes
store_bytes-outside [] a mem x h = refl
store_bytes-outside (b ∷ bs) a mem x h =
    store_bytes-outside bs (suc a) (λ y. if y == a then b else mem y) x (narrow h) ∙ first h
  where
    narrow : IsOutside a (suc (length bs)) x → IsOutside (suc a) (length bs) x
    narrow (inl below) = inl (omega arith)
    narrow (inr above) = inr (omega arith)

    first : IsOutside a (suc (length bs)) x → (if x == a then b else mem x) ≡ mem x
    first (inl below) = ground arith
    first (inr above) = ground arith

-- What is outside of a range is outside of each part of it.
pub part-IsOutside :
    (a size b n x : ℕ) → a ≤ b → b + n ≤ a + size → IsOutside a size x → IsOutside b n x
part-IsOutside a size b n x h k (inl below) = inl (omega arith)
part-IsOutside a size b n x h k (inr above) = inr (omega arith)

read_into-outside :
    (count a : ℕ) (mem : Memory) (s : IStream) (x : ℕ)
    → IsOutside a count x
    → (read_into count a mem s).1 x ≡ mem x
unfolding store_read
read_into-outside count a mem s x h = go (pb_read count s) refl
  where
    go : (r : Res IStream (List ℕ)) → pb_read count s ≡ r → (store_read r a mem).1 x ≡ mem x
    go (ok bs t) e =
        let n = pb_read-length count s bs t e in store_bytes-outside bs a mem x (rw n h)
    go (fail t) e = refl
    go fault e = refl

fill_bytes-outside :
    (size n dest : ℕ) (mem : Memory) (s : IStream) (x : ℕ)
    → size + 4 ≤ n
    → IsOutside dest n x
    → (fill_bytes size dest mem s).1 x ≡ mem x
fill_bytes-outside size n dest mem s x h o =
    read_into-outside size (dest + 4) (store 4 size dest mem) s x
      (part-IsOutside dest n (dest + 4) size x (omega arith) (omega arith) o)
    ∙ store-outside 4 size dest mem x (part-IsOutside dest n dest 4 x (omega arith) (omega arith) o)

fill_string-outside :
    (size n dest : ℕ) (mem : Memory) (s : IStream) (x : ℕ)
    → size + 1 ≤ n
    → IsOutside dest n x
    → (fill_string size dest mem s).1 x ≡ mem x
fill_string-outside size n dest mem s x h o =
    store-outside 1 0 (dest + size) (read_into size dest mem s).1 x
      (part-IsOutside dest n (dest + size) 1 x (omega arith) (omega arith) o)
    ∙ read_into-outside size dest mem s x
        (part-IsOutside dest n dest size x (omega arith) (omega arith) o)

pub if-outside :
    (c : Bool) (a b : Outcome) (mem : Memory) (x : ℕ)
    → (c ≡ true → a.1 x ≡ mem x)
    → (c ≡ false → b.1 x ≡ mem x)
    → (if c then a else b).1 x ≡ mem x
if-outside true a b mem x h k = h refl
if-outside false a b mem x h k = k refl

module _ (pb_realloc : ℕ → ℕ → Memory → ℕ × Memory) (field : Field) (dest : ℕ) (mem : Memory)
    (x : ℕ) (is_static : (atype field.type == atype_pointer) ≡ false)
    (o : IsOutside dest field.data_size x) where
  place_bytes-outside :
      (size : ℕ) (s : IStream) → (place_bytes pb_realloc field dest mem size s).1 x ≡ mem x
  unfolding place_bytes
  place_bytes-outside size s =
      if-outside (ltb size_max size) _ _ mem x (λ c. refl)
        (λ small.
          if-outside (ltb (u64 (size + 4)) size) _ _ mem x (λ c. refl)
            (λ c.
              if-outside (atype field.type == atype_pointer) _ _ mem x (λ c. absurd (ground arith))
                (λ n.
                  if-outside (ltb field.data_size (u64 (size + 4))) _ _ mem x (λ c. refl)
                    (λ fits.
                      fill_bytes-outside size field.data_size dest mem s x (ground arith) o))))

  -- For a field that is no pointer, whatever the stream holds and however the call ends,
  -- `pb_dec_bytes` changes no byte outside of the `data_size` bytes of the field.
  pub pb_dec_bytes-outside : (s : IStream) → (pb_dec_bytes pb_realloc field dest mem s).1 x ≡ mem x
  unfolding pb_dec_bytes
  pb_dec_bytes-outside s =
      with_value-outside (pb_decode_varint32 s) mem (place_bytes pb_realloc field dest mem) x
        place_bytes-outside

  place_string-outside :
      (size : ℕ) (s : IStream) → (place_string pb_realloc field dest mem size s).1 x ≡ mem x
  unfolding place_string
  place_string-outside size s =
      if-outside (ltb (u32 (size + 1)) size) _ _ mem x (λ c. refl)
        (λ small.
          if-outside (atype field.type == atype_pointer) _ _ mem x (λ c. absurd (ground arith))
            (λ n.
              if-outside (ltb field.data_size (u32 (size + 1))) _ _ mem x (λ c. refl)
                (λ fits. fill_string-outside size field.data_size dest mem s x (ground arith) o)))

  -- For a field that is no pointer, whatever the stream holds and however the call ends,
  -- `pb_dec_string` changes no byte outside of the `data_size` bytes of the field.
  pub pb_dec_string-outside :
      (s : IStream) → (pb_dec_string pb_realloc field dest mem s).1 x ≡ mem x
  unfolding pb_dec_string
  pb_dec_string-outside s =
      with_value-outside (pb_decode_varint32 s) mem (place_string pb_realloc field dest mem) x
        place_string-outside

module _ (field : Field) (dest : ℕ) (mem : Memory) (x : ℕ)
    (o : IsOutside dest field.data_size x) where
  place_fixed_length-outside :
      (size : ℕ) (s : IStream) → (place_fixed_length field dest mem size s).1 x ≡ mem x
  unfolding place_fixed_length
  place_fixed_length-outside size s =
      if-outside (ltb size_max size) _ _ mem x (λ c. refl)
        (λ small.
          if-outside (size == 0) _ _ mem x (λ c. store-outside field.data_size 0 dest mem x o)
            (λ c.
              if-outside (not (size == field.data_size)) _ _ mem x (λ n. refl)
                (λ same. read_into-outside field.data_size dest mem s x o)))

  pub pb_dec_fixed_length_bytes-outside :
      (s : IStream) → (pb_dec_fixed_length_bytes field dest mem s).1 x ≡ mem x
  unfolding pb_dec_fixed_length_bytes
  pb_dec_fixed_length_bytes-outside s =
      with_value-outside (pb_decode_varint32 s) mem (place_fixed_length field dest mem) x
        place_fixed_length-outside
