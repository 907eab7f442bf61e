-- ===== src/Pb/Blobs.antt =====
-- The decoders of pb_decode.c for bytes and strings, and `allocate_field`, which they call for
-- fields that are pointers.
pub mod Bounds
pub mod Restores
use daily_diary.Base.{
  ℕ, zero, suc, ◌+◌, ◌-◌, ◌*◌, ◌/◌, ◌^◌, List, [], ◌∷◌, u32, u64, Bool, not, leb, ltb, ◌==◌, ◌&&◌,
  ◌||◌, if◌then◌else◌,
}
use daily_diary.Pb.{Field, atype, atype_pointer, size_max, Res, ok, fail, fault, invalid_size}
use daily_diary.Pb.{realloc_failed, size_too_large, bytes_overflow, string_overflow}
use daily_diary.Pb.{incorrect_fixed_length_bytes_size}
use daily_diary.Pb.IStream.{IStream, return_error, pb_read}
use daily_diary.Pb.Decode.{pb_decode_varint32}
use daily_diary.Pb.Scalar.{Memory, load, store, with_value}

-- The result of a call, and the memory as it leaves it.
abbrev pub Outcome : Type 0
Outcome = Res IStream (Unit {0}) × Memory

unfoldable pub store_bytes : List ℕ → ℕ → Memory → Memory
store_bytes [] a mem = mem
store_bytes (b ∷ bs) a mem = store_bytes bs (suc a) (λ x. if x == a then b else mem x)

-- What `pb_read` has stored at an address. A callback that fails is taken to store nothing.
unfoldable pub store_read : Res IStream (List ℕ) → ℕ → Memory → Outcome
store_read (ok bs t) a mem = (ok tt t, store_bytes bs a mem)
store_read (fail t) a mem = (fail t, mem)
store_read fault a mem = (fault, mem)

-- `pb_read(stream, (pb_byte_t*)a, count)`.
abbrev pub read_into : ℕ → ℕ → Memory → IStream → Outcome
read_into count a mem s = store_read (pb_read count s) a mem

-- `if (!allocate_field(…)) return false;` before what follows.
unfoldable pub and_then : Outcome → (Memory → IStream → Outcome) → Outcome
and_then (ok _ s, mem) k = k mem s
and_then (fail s, mem) k = (fail s, mem)
and_then (fault, mem) k = (fault, mem)

-- The test before a multiplication of sizes that could wrap around.
abbrev pub is_too_large : ℕ → ℕ → Bool
is_too_large data_size array_size =
    (leb (2 ^ 32) data_size || leb (2 ^ 32) array_size) && ltb ((2 ^ 64 - 1) / array_size) data_size

-- Behind `bdest->size`: a pb_bytes_array_t is a pb_size_t of 4 bytes and then the bytes.
abbrev pub fill_bytes : ℕ → ℕ → Memory → IStream → Outcome
fill_bytes size bdest mem s = read_into size (bdest + 4) (store 4 size bdest mem) s

-- `*((pb_byte_t*)dest + size) = 0`.
abbrev pub terminate : ℕ → Outcome → Outcome
terminate a r = (r.0, store 1 0 a r.1)

abbrev pub fill_string : ℕ → ℕ → Memory → IStream → Outcome
fill_string size dest mem s = terminate (dest + size) (read_into size dest mem s)

-- `pb_realloc`: from a pointer, a size and the memory to a pointer, 0 for NULL, and the memory.
module _ (pb_realloc : ℕ → ℕ → Memory → ℕ × Memory) where
  -- Behind the call of `pb_realloc`.
  abbrev pub keep_pointer : ℕ → ℕ × Memory → IStream → Outcome
  keep_pointer pdata (ptr, mem) s =
      if ptr == 0 then (return_error realloc_failed s, mem) else (ok tt s, store 8 ptr pdata mem)

  unfoldable pub allocate_field : ℕ → ℕ → ℕ → Memory → IStream → Outcome
  allocate_field pdata data_size array_size mem s =
      if data_size == 0 || array_size == 0
      then (return_error invalid_size s, mem)
      else if is_too_large data_size array_size
      then (return_error size_too_large s, mem)
      else keep_pointer pdata (pb_realloc (load 8 pdata mem) (u64 (array_size * data_size)) mem) s

  -- Behind the reading of the size.
  unfoldable pub place_bytes : Field → ℕ → Memory → ℕ → IStream → Outcome
  place_bytes field dest mem size s =
      let alloc_size = u64 (size + 4) in
      if ltb size_max size
      then (return_error bytes_overflow s, mem)
      else if ltb alloc_size size
      then (return_error size_too_large s, mem)
      else if atype field.type == atype_pointer
      then and_then (allocate_field dest alloc_size 1 mem s)
          (λ mem' t. fill_bytes size (load 8 dest mem') mem' t)
      else if ltb field.data_size alloc_size
      then (return_error bytes_overflow s, mem)
      else fill_bytes size dest mem s

  unfoldable pub pb_dec_bytes : Field → ℕ → Memory → IStream → Outcome
  unfolding place_bytes
  pb_dec_bytes field dest mem s = with_value (pb_decode_varint32 s) mem (place_bytes field dest mem)

  -- Behind the reading of the size; `size + 1` is a sum of 32 bits.
  unfoldable pub place_string : Field → ℕ → Memory → ℕ → IStream → Outcome
  place_string field dest mem size s =
      let alloc_size = u32 (size + 1) in
      if ltb alloc_size size
      then (return_error size_too_large s, mem)
      else if atype field.type == atype_pointer
      then and_then (allocate_field dest alloc_size 1 mem s)
          (λ mem' t. fill_string size (load 8 dest mem') mem' t)
      else if ltb field.data_size alloc_size
      then (return_error string_overflow s, mem)
      else fill_string size dest mem s

  unfoldable pub pb_dec_string : Field → ℕ → Memory → IStream → Outcome
  unfolding place_string
  pb_dec_string field dest mem s =
      with_value (pb_decode_varint32 s) mem (place_string field dest mem)

-- Behind the reading of the size.
unfoldable pub place_fixed_length : Field → ℕ → Memory → ℕ → IStream → Outcome
place_fixed_length field dest mem size s =
    if ltb size_max size
    then (return_error bytes_overflow s, mem)
    else if size == 0
    then (ok tt s, store field.data_size 0 dest mem)
    else if not (size == field.data_size)
    then (return_error incorrect_fixed_length_bytes_size s, mem)
    else read_into field.data_size dest mem s

unfoldable pub pb_dec_fixed_length_bytes : Field → ℕ → Memory → IStream → Outcome
unfolding place_fixed_length
pb_dec_fixed_length_bytes field dest mem s =
    with_value (pb_decode_varint32 s) mem (place_fixed_length field dest mem)
