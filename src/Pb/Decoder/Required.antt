-- ===== src/Pb/Decoder/Required.antt =====
-- What `pb_decode_noinit` of pb_decode.c keeps of the required fields it has met: a bit for each,
-- in `fields_seen`.
pub mod Marks
pub mod Present
pub mod Complete
use daily_diary.Base.{ℕ, zero, suc, ◌+◌, ◌-◌, ◌/◌, ◌%◌, ◌*◌, ◌^◌, ◌==◌, ◌&&◌, ◌||◌, not, u32}
use daily_diary.Base.{Bool, true, false, ltb, if◌then◌else◌, List, [], ◌∷◌, get_or, set, bit_or}
use daily_diary.Base.{bit_and, Option, none, some}
use daily_diary.Pb.{htype, htype_required}
use daily_diary.Pb.Iter.{Iter, field_at, pb_field_iter_next}

-- PB_MAX_REQUIRED_FIELDS.
abbrev pub max_required_fields : ℕ
max_required_fields = 64

abbrev pub allbits : ℕ
allbits = 2 ^ 32 - 1

-- `fields_seen[i >> 5] |= (uint32_t)1 << (i & 31)`.
unfoldable pub mark_seen : ℕ → List ℕ → List ℕ
mark_seen i seen =
    set seen (i / 2 ^ 5) (bit_or (get_or seen (i / 2 ^ 5) 0) (u32 (1 * 2 ^ bit_and i 31)))

-- The mark of the field that was found.
abbrev pub mark_required : Iter → List ℕ → List ℕ
mark_required it seen =
    if htype (field_at it.start it.pos).type == htype_required
      && ltb it.required_field_index max_required_fields
    then mark_seen it.required_field_index seen
    else seen

-- `req_field_count`, `last_type` and the iterator behind the loop that seeks the end of the fields.
pub record FieldsEnd : Type 0 where
  pub req_field_count : ℕ
  pub last_type : ℕ
  pub it : Iter

unfoldable pub seek_end : ℕ → Iter → Option FieldsEnd
seek_end zero it = none
seek_end (suc rounds) it = elim ((pb_field_iter_next it).1) [
  | true ↦ seek_end rounds (pb_field_iter_next it).0
  | false ↦ some (record {
    req_field_count = it.required_field_index;
    last_type = (field_at it.start it.pos).type;
    it = (pb_field_iter_next it).0;
  })
]

-- `req_field_count`, behind the fixup for the last field and the limit.
unfoldable pub required_count : FieldsEnd → ℕ
required_count end =
    let count =
      if htype end.last_type == htype_required && not ((field_at end.it.start end.it.pos).tag == 0)
      then u32 (end.req_field_count + 1)
      else end.req_field_count in
    if ltb max_required_fields count then max_required_fields else count

-- `for (i = 0; i < n; i++)`.
unfoldable pub whole_words : ℕ → List ℕ → Bool
whole_words zero seen = true
whole_words (suc n) [] = false
whole_words (suc n) (word ∷ seen) = word == allbits && whole_words n seen

-- Whether no test for a required field fails.
unfoldable pub all_seen : ℕ → List ℕ → Bool
unfolding whole_words
all_seen count seen =
    whole_words (count / 2 ^ 5) seen
    && (bit_and count 31 == 0
        || get_or seen (count / 2 ^ 5) 0 == allbits / 2 ^ (32 - bit_and count 31))
