-- ===== src/Pb/Message/Absent.antt =====
-- `pb_check_proto3_default_value` of pb_encode.c, and the fields that a loop over the iterator
-- visits.
use mathlib.Core.Option
use daily_diary.Base.{ℕ, zero, suc, List, [], ◌∷◌, length, Bool, true, false, not}
use daily_diary.Base.{◌==◌, ◌&&◌, if◌then◌else◌, Option, none, some}
use daily_diary.Pb.{Field, ltype, htype, atype, htype_required, htype_repeated, htype_oneof}
use daily_diary.Pb.{htype_optional, atype_static, ltype_bytes, ltype_string, ltype_submessage}
use daily_diary.Pb.{ltype_fixed_length_bytes}
use daily_diary.Pb.Iter.{Iter, field_at, size_address, pb_field_iter_begin, pb_field_iter_next}
use daily_diary.Pb.Scalar.{Memory, load}
use daily_diary.Pb.Message.{Env}

-- `iter.pos` and `iter.pData` in each round of `do { … } while (pb_field_iter_next(&iter))`.
-- `none` where the loop goes on behind its rounds.
unfoldable pub visits : ℕ → Iter → Option (List (Field × ℕ))
visits zero it = none
visits (suc rounds) it = elim ((pb_field_iter_next it).1) [
  | true ↦
      Option.map (λ vs. (field_at it.start it.pos, it.pdata) ∷ vs)
        (visits rounds (pb_field_iter_next it).0)
  | false ↦ some ((field_at it.start it.pos, it.pdata) ∷ [])
]

-- The same behind `pb_field_iter_begin`, with a round for each field.
unfoldable pub message_visits : List Field → ℕ → Option (List (Field × ℕ))
message_visits fields src =
    if (pb_field_iter_begin fields src).1
    then visits (length fields) (pb_field_iter_begin fields src).0
    else some []

-- `for (i = 0; i < field->data_size; i++) if (p[i] != 0) return false;`.
unfoldable pub all_zero : ℕ → ℕ → Memory → Bool
all_zero zero p mem = true
all_zero (suc n) p mem = elim (mem p == 0) [ true ↦ all_zero n (suc p) mem | false ↦ false ]

-- `if (!pb_check_proto3_default_value(…)) return false;`, and the rest of the loop.
unfoldable pub unless_false : Option Bool → Option Bool → Option Bool
unless_false none rest = none
unless_false (some false) rest = some false
unless_false (some true) rest = rest

-- The loop over the fields of a submessage: whether all have their default value.
unfoldable pub all_default : (Field → ℕ → Option Bool) → List (Field × ℕ) → Option Bool
unfolding unless_false
all_default check [] = some true
all_default check ((field, p) ∷ rest) = unless_false (check field p) (all_default check rest)

-- `none` where the loop does not end.
unfoldable pub all_visited : (Field → ℕ → Option Bool) → Option (List (Field × ℕ)) → Option Bool
all_visited check none = none
all_visited check (some vs) = all_default check vs

-- The body, with `check` for the calls on the fields of a submessage.
unfoldable pub check_default_value : (Field → ℕ → Option Bool) → Env → Field → ℕ → Option Bool
unfolding all_zero all_visited
check_default_value check env field p =
    let psize = size_address p field in
    if htype field.type == htype_required
    then some false
    else if htype field.type == htype_repeated
    then some (load 4 psize env.mem == 0)
    else if htype field.type == htype_oneof
    then some (load 4 psize env.mem == 0)
    else if htype field.type == htype_optional && not (field.size_offset == 0)
    then some (load 1 psize env.mem == 0)
    else if atype field.type == atype_static && ltype field.type == ltype_bytes
    then some (load 4 p env.mem == 0)
    else if atype field.type == atype_static && ltype field.type == ltype_string
    then some (load 1 p env.mem == 0)
    else if atype field.type == atype_static && ltype field.type == ltype_fixed_length_bytes
    then some (field.data_size == 0)
    else if atype field.type == atype_static && ltype field.type == ltype_submessage
    then all_visited check (message_visits (env.fields_at field.ptr) p)
    else some (all_zero field.data_size p env.mem)

-- `depth` is how many calls the stack has room for; `none` where it has not enough, or the call does
-- not return.
unfoldable pub pb_check_proto3_default_value : ℕ → Env → Field → ℕ → Option Bool
unfolding check_default_value
pb_check_proto3_default_value zero env = λ field p. none
pb_check_proto3_default_value (suc depth) env =
    check_default_value (pb_check_proto3_default_value depth env) env
