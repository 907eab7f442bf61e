-- ===== src/Pb/Iter.antt =====
-- pb_common.c: the iterator over the fields of a message.
pub mod Find
pub mod Index
pub mod Ends
use daily_diary.Base.{ℕ, zero, suc, ◌+◌, ◌-◌, ◌*◌, ◌^◌, List, length, get_or, u32, u64}
use daily_diary.Base.{Bool, true, false, not, ◌&&◌, ◌==◌, leb, if◌then◌else◌, Option, none, some}
use daily_diary.Pb.{Field, ltype, htype, atype, ltype_extension, htype_required, htype_repeated}
use daily_diary.Pb.{htype_oneof, atype_static, atype_pointer, size_max}

-- pb_field_iter_t. `start` is the array up to its terminator, and `pos` an index into it;
-- `dest_struct`, `pdata` and `psize` are addresses.
pub record Iter : Type 0 where
  pub start : List Field
  pub pos : ℕ
  pub required_field_index : ℕ
  pub dest_struct : ℕ
  pub pdata : ℕ
  pub psize : ℕ

-- PB_LAST_FIELD, which ends every array of fields.
abbrev pub last_field : Field
last_field = record {
  tag = 0;
  type = 0;
  data_offset = 0;
  size_offset = 0;
  data_size = 0;
  array_size = 0;
  ptr = 0;
}

-- `*iter->pos`.
abbrev pub field_at : List Field → ℕ → Field
field_at fields i = get_or fields i last_field

-- An int32_t on its way into an address.
abbrev pub sign_extend : ℕ → ℕ
sign_extend x = if leb (2 ^ 31) x then x + (2 ^ 64 - 2 ^ 32) else x

-- `pSize`, behind the assignment of `pData`.
abbrev pub size_address : ℕ → Field → ℕ
size_address pdata field = u64 (pdata + sign_extend field.size_offset)

-- The iterator as the call leaves it; the result is whether there is a field.
unfoldable pub pb_field_iter_begin : List Field → ℕ → Iter × Bool
pb_field_iter_begin fields dest_struct =
    let first = field_at fields 0 in
    let pdata = u64 (dest_struct + first.data_offset) in
    (
      record {
        start = fields;
        pos = 0;
        required_field_index = 0;
        dest_struct = dest_struct;
        pdata = pdata;
        psize = size_address pdata first;
      },
      not (first.tag == 0),
    )

-- Whether two fields share a union that `pData` stays in.
abbrev pub in_union : Field → Field → Bool
in_union prev next =
    htype prev.type == htype_oneof
    && (htype next.type == htype_oneof && next.data_offset == size_max)

-- `prev_size`; `sizeof(void*)` is 8.
abbrev pub prev_size : Field → ℕ
prev_size prev =
    if atype prev.type == atype_static && htype prev.type == htype_repeated
    then u64 (prev.data_size * prev.array_size)
    else if atype prev.type == atype_pointer
    then 8
    else prev.data_size

-- The `else` branch of `pb_field_iter_next`, with `pos` moved on.
pub advance_data : Field → Field → Iter → Iter
advance_data prev next it =
    if in_union prev next
    then it
    else let pdata = u64 (it.pdata + prev_size prev + next.data_offset) in
      record it {
        required_field_index =
            if htype prev.type == htype_required
            then u32 (it.required_field_index + 1)
            else it.required_field_index;
        pdata = pdata;
        psize = size_address pdata next;
      }

unfoldable pub pb_field_iter_next : Iter → Iter × Bool
unfolding advance_data
pb_field_iter_next it =
    let prev = field_at it.start it.pos in
    let next = field_at it.start (suc it.pos) in
    if prev.tag == 0
    then (it, false)
    else if next.tag == 0
    then ((pb_field_iter_begin it.start it.dest_struct).0, false)
    else (advance_data prev next (record it { pos = suc it.pos }), true)

-- The test of `pb_field_iter_find`.
abbrev pub is_wanted : ℕ → Field → Bool
is_wanted tag field = field.tag == tag && not (ltype field.type == ltype_extension)

-- The `do` loop; `none` is for rounds that did not suffice.
unfoldable pub find_loop : ℕ → ℕ → ℕ → Iter → Option (Iter × Bool)
find_loop zero start tag it = none
find_loop (suc rounds) start tag it = elim (is_wanted tag (field_at it.start it.pos)) [
  | true ↦ some (it, true)
  | false ↦
      let it' = (pb_field_iter_next it).0 in
      elim (it'.pos == start) [ true ↦ some (it', false) | false ↦ find_loop rounds start tag it' ]
]

-- No field is met twice, so the number of fields is enough rounds, and one for no field at all.
unfoldable pub pb_field_iter_find : ℕ → Iter → Option (Iter × Bool)
pb_field_iter_find tag it = find_loop (suc (length it.start)) it.pos tag it
