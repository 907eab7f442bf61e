-- ===== src/Pb/Blobs/Restores.antt =====
-- A string that `pb_dec_string` has read is the one that `pb_enc_string` writes.
use daily_diary.Base.{ℕ, zero, suc, ◌+◌, ◌^◌, ◌<◌, ◌≡◌, refl, ap, ◌∙◌, arith, inl}
use daily_diary.Base.{
  List, [], ◌∷◌, ◌++◌, length, length-append, All, false, some, ◌==◌, if◌then◌else◌, Option,
}
use daily_diary.Pb.{ErrMsg, Field, atype, atype_pointer, ok}
use daily_diary.Pb.OStream.Emits.{Emits}
use daily_diary.Pb.IStream.Buffer.{buffer, pb_read-buffer}
use daily_diary.Pb.Encode.Varint.{encoding, length-encoding}
use daily_diary.Pb.RoundTrip.{decode_encoding32}
use daily_diary.Pb.Scalar.{Memory, store, with_value}
use daily_diary.Pb.Message.{load_bytes}
use daily_diary.Pb.Message.Format.{delimited, string_value}
use daily_diary.Pb.Message.Values.{string_size, max_string_size, pb_enc_string}
use daily_diary.Pb.Message.Refines.Values.{pb_enc_string-Describes}
use daily_diary.Pb.Blobs.{store_bytes, store_read, place_string, pb_dec_string}
use daily_diary.Pb.Blobs.Bounds.{store_bytes-outside}

-- The bytes stand at an address, with a zero behind them.
abbrev HoldsText : List ℕ → ℕ → Memory → Type 0
HoldsText [] a mem = mem a ≡ 0
HoldsText (b ∷ bs) a mem = (mem a ≡ b) × HoldsText bs (suc a) mem

load_bytes-text :
    (bs : List ℕ) (a : ℕ) (mem : Memory) → HoldsText bs a mem → load_bytes (length bs) a mem ≡ bs
load_bytes-text [] a mem h = refl
load_bytes-text (b ∷ bs) a mem (e, h) = rw (e, load_bytes-text bs (suc a) mem h) refl

string_size-text :
    (bs : List ℕ) (n a : ℕ) (mem : Memory)
    → HoldsText bs a mem
    → All (λ b. 0 < b) bs
    → length bs < n
    → string_size n a mem ≡ length bs
unfolding string_size
string_size-text bs zero a mem h p l = absurd (omega arith)
string_size-text [] (suc n) a mem h p l = ground arith
string_size-text (b ∷ bs) (suc n) a mem (e, h) (p, ps) l =
    ground (arith, string_size-text bs n (suc a) mem h ps (omega arith))

store-HoldsText :
    (bs : List ℕ) (a : ℕ) (mem : Memory)
    → HoldsText bs a (store 1 0 (a + length bs) (store_bytes bs a mem))
unfolding store store_bytes
store-HoldsText [] a mem = ground arith
store-HoldsText (b ∷ bs) a mem =
    let ahead : a + suc (length bs) ≡ suc a + length bs = omega arith in
    (
      ground (
        arith,
        store_bytes-outside bs (suc a) (λ x. if x == a then b else mem x) a (inl (omega arith)),
      ),
      rw ahead (store-HoldsText bs (suc a) (λ x. if x == a then b else mem x)),
    )

module _ (pb_realloc : ℕ → ℕ → Memory → ℕ × Memory) (field : Field) (dest : ℕ) (mem : Memory)
    (bs rest : List ℕ) (k : ℕ) (e : Option ErrMsg)
    (is_static : (atype field.type == atype_pointer) ≡ false) (fits : length bs < field.data_size)
    (word : length bs + 1 < 2 ^ 32) where
  places :
      place_string pb_realloc field dest mem (length bs) (buffer (bs ++ rest) (length bs + k) e)
      ≡ (ok tt (buffer rest k e), store 1 0 (dest + length bs) (store_bytes bs dest mem))
  unfolding place_string store_read
  places = ground (arith, pb_read-buffer bs rest k e)

  decodes :
      pb_dec_string pb_realloc field dest mem (
        buffer
          (encoding (length bs) ++ (bs ++ rest))
          (length (encoding (length bs)) + (length bs + k))
          e)
      ≡ (ok tt (buffer rest k e), store 1 0 (dest + length bs) (store_bytes bs dest mem))
  unfolding pb_dec_string with_value
  decodes =
      ap (λ r. with_value r mem (place_string pb_realloc field dest mem))
        (decode_encoding32 (length bs) (bs ++ rest) (length bs + k) e (omega arith))
      ∙ places

encodes :
    (field : Field) (dest : ℕ) (mem : Memory) (bs : List ℕ)
    → HoldsText bs dest mem
    → All (λ b. 0 < b) bs
    → 0 < dest
    → (atype field.type == atype_pointer) ≡ false
    → length bs < field.data_size
    → length (delimited bs) < 2 ^ 63
    → Emits (pb_enc_string mem field dest) (delimited bs)
encodes field dest mem bs holds nonzero pos is_static fits short =
    pb_enc_string-Describes mem field dest (delimited bs) (value) short
  where
    sized : string_size (max_string_size field) dest mem ≡ length bs
    sized =
        rw (is_static, max_string_size)
          (string_size-text bs field.data_size dest mem holds nonzero fits)

    loaded : load_bytes (string_size (max_string_size field) dest mem) dest mem ≡ bs
    loaded = ap (λ n. load_bytes n dest mem) sized ∙ load_bytes-text bs dest mem holds

    value : string_value mem field dest ≡ some (delimited bs)
    value =
        let nonnull : (dest == 0) ≡ false = ground arith in
        rw nonnull (ap (λ xs. some (delimited xs)) loaded)

-- A string without a zero that stands in a buffer behind its length is stored by `pb_dec_string`
-- in a field that is no pointer, has an address other than 0 and has room for the string and its
-- zero, where the string has fewer than 2 ^ 32 - 1 bytes; `pb_enc_string` emits from there the
-- same length and bytes.
pub pb_enc_string-pb_dec_string :
    (pb_realloc : ℕ → ℕ → Memory → ℕ × Memory) (field : Field) (dest : ℕ) (mem : Memory)
    (bs rest : List ℕ) (k : ℕ) (e : Option ErrMsg)
    → (atype field.type == atype_pointer) ≡ false
    → All (λ b. 0 < b) bs
    → 0 < dest
    → length bs < field.data_size
    → length bs + 1 < 2 ^ 32
    → (mem' : Memory) × (pb_dec_string pb_realloc field dest mem (
          buffer
            (encoding (length bs) ++ (bs ++ rest))
            (length (encoding (length bs)) + (length bs + k))
            e)
        ≡ (ok tt (buffer rest k e), mem'))
      × Emits (pb_enc_string mem' field dest) (delimited bs)
pb_enc_string-pb_dec_string pb_realloc field dest mem bs rest k e is_static nonzero pos fits word =
    (
      _,
      decodes pb_realloc field dest mem bs rest k e is_static fits word,
      encodes field dest _ bs (store-HoldsText bs dest mem) nonzero pos is_static fits
          (omega (arith, length-append (encoding (length bs)) bs, length-encoding (length bs))),
    )
