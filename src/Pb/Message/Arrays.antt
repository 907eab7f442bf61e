-- ===== src/Pb/Message/Arrays.antt =====
-- `encode_array` of pb_encode.c: the entries of a repeated field, packed where the type allows it.
use daily_diary.Base.{ℕ, zero, suc, ◌+◌, ◌*◌, u64, leb, ltb, ◌==◌, ◌&&◌, ◌||◌, if◌then◌else◌}
use daily_diary.Base.{not}
use daily_diary.Pb.{Field, ltype, atype, Res, ok, fail, fault, ◌>>◌, WireType}
use daily_diary.Pb.{atype_pointer}
use daily_diary.Pb.{ltype_fixed32, ltype_fixed64, ltype_bytes}
use daily_diary.Pb.{ltype_string, array_max_size_exceeded}
use daily_diary.Pb.OStream.{OStream, null_buf, sizing, pb_write, is_null, return_error}
use daily_diary.Pb.Encode.{pb_encode_varint, pb_encode_tag, pb_encode_tag_for_field}
use daily_diary.Pb.Scalar.{load}
use daily_diary.Pb.Message.{Action, Env}

-- PB_LTYPE_LAST_PACKABLE.
abbrev pub last_packable : ℕ
last_packable = 0x04

-- A tag and a value. `func p` is the call `func(stream, field, p)`.
abbrev pub encode_entry : (ℕ → Action) → Field → ℕ → Action
encode_entry func field p = do pb_encode_tag_for_field field; func p

-- `for (i = 0; i < count; i++) { func(stream, field, p); p += field->data_size; }`.
unfoldable pub encode_items : (ℕ → Action) → Field → ℕ → ℕ → Action
encode_items func field zero p = ok tt
encode_items func field (suc count) p = do
  func p
  encode_items func field count (u64 (p + field.data_size))

-- Where an entry of an array has its data.
abbrev pub entry_data : Env → Field → ℕ → ℕ
entry_data env field p =
    if atype field.type == atype_pointer
      && (ltype field.type == ltype_string || ltype field.type == ltype_bytes)
    then load 8 p env.mem
    else p

-- The loop of the `else` branch, a tag before each entry.
unfoldable pub encode_entries : (ℕ → Action) → Env → Field → ℕ → ℕ → Action
encode_entries func env field zero p = ok tt
encode_entries func env field (suc count) p = do
  pb_encode_tag_for_field field
  func (entry_data env field p)
  encode_entries func env field count (u64 (p + field.data_size))

-- The size of a packed array and its data, or its size alone.
unfoldable pub write_packed : (ℕ → Action) → Field → ℕ → ℕ → ℕ → Action
unfolding encode_items
write_packed func field count p size s =
    if is_null s.callback then pb_write (null_buf size) s else encode_items func field count p s

-- The loop over `sizestream`, with its result, before what uses the size.
unfoldable pub with_size : Res OStream (Unit {0}) → (ℕ → Action) → Action
with_size (ok _ sizestream) k = k sizestream.bytes_written
with_size (fail sizestream) k = fail
with_size fault k = λ s. fault

unfoldable pub encode_sized : (ℕ → Action) → Field → ℕ → ℕ → ℕ → Action
unfolding write_packed
encode_sized func field count p size = do
  pb_encode_varint size
  write_packed func field count p size

-- The `if` branch, behind the tag.
unfoldable pub encode_packed : (ℕ → Action) → Field → ℕ → ℕ → Action
unfolding encode_sized with_size
encode_packed func field count p =
    if ltype field.type == ltype_fixed32
    then encode_sized func field count p (u64 (4 * count))
    else if ltype field.type == ltype_fixed64
    then encode_sized func field count p (u64 (8 * count))
    else with_size (encode_items func field count p sizing) (encode_sized func field count p)

unfoldable pub encode_array : (ℕ → Action) → Env → Field → ℕ → ℕ → Action
unfolding encode_packed encode_entries
encode_array func env field p count =
    if count == 0
    then ok tt
    else if not (atype field.type == atype_pointer) && ltb field.array_size count
    then return_error array_max_size_exceeded
    else if leb (ltype field.type) last_packable
    then pb_encode_tag WireType.string field.tag >> encode_packed func field count p
    else encode_entries func env field count p
