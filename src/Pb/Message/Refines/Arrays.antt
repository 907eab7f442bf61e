-- ===== src/Pb/Message/Refines/Arrays.antt =====
-- Repeated fields: a packed array is sized and then written, another has a tag for each entry.
use daily_diary.Base.{
  ℕ, zero, suc, ◌+◌, ◌*◌, ◌^◌, ◌<◌, ◌≡◌, refl, ap, ◌∙◌, arith, List, ◌++◌, length,
}
use daily_diary.Base.{
  length-append, u64, if◌then◌else◌, Bool, true, false, not, leb, ◌&&◌, none, some, ltb, ◌==◌,
}
use daily_diary.Pb.{Field, ltype, atype, ok, WireType, ltype_fixed32, ltype_fixed64, atype_pointer}
use daily_diary.Pb.OStream.{OStream, sizing, null, add_written}
use daily_diary.Pb.OStream.Emits.{Emits, IsBuffer, >>-Emits}
use daily_diary.Pb.Encode.Varint.{encoding}
use daily_diary.Pb.Encode.Scalars.{pb_encode_varint-Emits}
use daily_diary.Pb.Message.{Action, Env}
use daily_diary.Pb.Message.Arrays.{
  encode_entry, encode_items, encode_entries, write_packed, with_size, encode_sized, encode_packed,
  encode_array, last_packable,
}
use daily_diary.Pb.Message.Format.{
  Bytes, Value, ◌+++◌, delimited, delimited_bytes, entry_bytes, items_bytes, entries_bytes,
  array_bytes,
}
use daily_diary.Pb.Message.Describes.{
  Describes, some-Describes, none-Describes, ok-Describes, >>-Describes, if-Describes,
}
use daily_diary.Pb.Message.Refines.Values.{
  pb_encode_tag-Describes, pb_encode_tag_for_field-Describes,
}
use daily_diary.Pb.Message.Refines.Submessage.{null_buf-sized}

-- The size that a packed array is given, and its data.
module _ (func : ℕ → Action) (field : Field) (count p : ℕ) (bs : List ℕ)
    (emits : Emits (encode_items func field count p) bs) where
  packed_null :
      (s : OStream)
      → s.callback ≡ null
      → write_packed func field count p (length bs) s ≡ ok tt (add_written (length bs) s)
  unfolding write_packed
  packed_null s h = ground (arith, null_buf-sized (length bs) s h)

  packed_items :
      (s : OStream)
      → IsBuffer s
      → write_packed func field count p (length bs) s ≡ encode_items func field count p s
  unfolding write_packed
  packed_items s b = let w = b.writes in ground arith

  write_packed-Emits : Emits (write_packed func field count p (length bs)) bs
  write_packed-Emits = record {
    short = emits.short;
    sized = λ s h u. packed_null s h;
    full = λ s b h. packed_items s b ∙ emits.full s b h;
    refused = λ s b h. rw (packed_items s b) (emits.refused s b h);
  }

  encode_sized-Emits :
      length (delimited bs) < 2 ^ 63
      → Emits (encode_sized func field count p (length bs)) (delimited bs)
  unfolding encode_sized
  encode_sized-Emits short =
      >>-Emits
        (pb_encode_varint-Emits (length bs)
          (omega (arith, length-append (encoding (length bs)) bs)))
        write_packed-Emits short

  with_size-length :
      with_size (encode_items func field count p sizing) (encode_sized func field count p)
      ≡ encode_sized func field count p (length bs)
  unfolding with_size sizing
  with_size-length =
      ap (λ r. with_size r (encode_sized func field count p))
        (emits.sized sizing refl (omega arith))
      ∙ ap (encode_sized func field count p) word
    where
      word : u64 (0 + length bs) ≡ length bs
      word = let short = emits.short in omega arith

pick :
    (c d : Bool) {x y z w : Action}
    → (c ≡ true → x ≡ w)
    → (d ≡ true → y ≡ w)
    → z ≡ w
    → (if c then x else if d then y else z) ≡ w
pick true d hx hy hz = hx refl
pick false true hx hy hz = hy refl
pick false false hx hy hz = hz

items_bytes-length :
    (value : Value) (field : Field) (k : ℕ)
    → ((p : ℕ) (bs : List ℕ) → value field p ≡ some bs → length bs ≡ k)
    → (count p : ℕ) (bs : List ℕ) → items_bytes value field count p ≡ some bs
    → length bs ≡ k * count
unfolding items_bytes
items_bytes-length value field k each zero p bs h = ground arith
items_bytes-length value field k each (suc count) p bs h =
    joined (value field p) (items_bytes value field count (u64 (p + field.data_size))) (each p)
      (items_bytes-length value field k each count _) bs h
  where
    joined :
        (x y : Bytes)
        → ((xs : List ℕ) → x ≡ some xs → length xs ≡ k)
        → ((ys : List ℕ) → y ≡ some ys → length ys ≡ k * count)
        → (bs : List ℕ) → x +++ y ≡ some bs
        → length bs ≡ k * suc count
    joined none y hx hy bs h = ground arith
    joined (some xs) none hx hy bs h = ground arith
    joined (some xs) (some ys) hx hy bs h =
        let a = hx xs refl in
        let b = hy ys refl in
        let e : bs ≡ xs ++ ys = ground arith in ap length e ∙ omega (arith, length-append xs ys)

module _ (func : ℕ → Action) (value : Value) (field : Field)
    (each : (p : ℕ) → Describes (value field p) (func p)) where
  pub encode_entry-Describes :
      (p : ℕ) → Describes (entry_bytes value field p) (encode_entry func field p)
  unfolding entry_bytes
  encode_entry-Describes p = >>-Describes _ _ (pb_encode_tag_for_field-Describes field) (each p)

module _ (func : ℕ → Action) (value : Value) (env : Env) (field : Field)
    (each : (p : ℕ) → Describes (value field p) (func p))
    (four : (ltype field.type == ltype_fixed32) ≡ true
      → (p : ℕ) (bs : List ℕ) → value field p ≡ some bs
      → length bs ≡ 4)
    (eight : (ltype field.type == ltype_fixed64) ≡ true
      → (p : ℕ) (bs : List ℕ) → value field p ≡ some bs
      → length bs ≡ 8) where
  encode_items-Describes :
      (count p : ℕ) → Describes (items_bytes value field count p) (encode_items func field count p)
  unfolding items_bytes encode_items
  encode_items-Describes zero p = ok-Describes
  encode_items-Describes (suc count) p = >>-Describes _ _ (each p) (encode_items-Describes count _)

  encode_entries-Describes :
      (count p : ℕ)
      → Describes (entries_bytes value env field count p) (encode_entries func env field count p)
  unfolding entries_bytes encode_entries
  encode_entries-Describes zero p = ok-Describes
  encode_entries-Describes (suc count) p =
      >>-Describes _ _ (pb_encode_tag_for_field-Describes field)
        (>>-Describes _ _ (each _) (encode_entries-Describes count _))

  packed_size :
      (count p : ℕ) (bs : List ℕ)
      → items_bytes value field count p ≡ some bs
      → length bs < 2 ^ 63
      → Emits (encode_items func field count p) bs
      → encode_packed func field count p ≡ encode_sized func field count p (length bs)
  unfolding encode_packed
  packed_size count p bs h short emits =
      pick _ _ (λ c. ap (encode_sized func field count p) (fixed_size 4 (four c)))
        (λ c. ap (encode_sized func field count p) (fixed_size 8 (eight c)))
        (with_size-length func field count p bs emits)
    where
      fixed_size :
          (k : ℕ)
          → ((p : ℕ) (bs : List ℕ) → value field p ≡ some bs → length bs ≡ k)
          → u64 (k * count) ≡ length bs
      fixed_size k each = let e = items_bytes-length value field k each count p bs h in omega arith

  encode_packed-Describes :
      (count p : ℕ)
      → Describes
          (delimited_bytes (items_bytes value field count p))
          (encode_packed func field count p)
  encode_packed-Describes count p = go (items_bytes value field count p) refl
    where
      go :
          (x : Bytes)
          → items_bytes value field count p ≡ x
          → Describes (delimited_bytes x) (encode_packed func field count p)
      go none h = none-Describes
      go (some bs) h = some-Describes (delimited bs) (λ short.
          let less : length bs < 2 ^ 63 = omega (arith, length-append (encoding (length bs)) bs) in
          let emits = encode_items-Describes count p bs h less in
          rw (packed_size count p bs h less emits)
            (encode_sized-Emits func field count p bs emits short))

  pub encode_array-Describes :
      (p count : ℕ)
      → Describes (array_bytes value env field p count) (encode_array func env field p count)
  unfolding array_bytes encode_array
  encode_array-Describes p count =
      if-Describes (count == 0) (λ c. ok-Describes)
        (λ c.
          if-Describes (not (atype field.type == atype_pointer) && ltb field.array_size count)
            (λ d. none-Describes)
            (λ d.
              if-Describes (leb (ltype field.type) last_packable)
                (λ k.
                  >>-Describes _ _ (pb_encode_tag-Describes WireType.string field.tag)
                    (encode_packed-Describes count p))
                (λ k. encode_entries-Describes count p)))
