-- ===== src/Pb/Defaults.antt =====
-- `pb_field_set_to_default` and `pb_message_set_to_defaults` of pb_decode.c, which give the fields
-- of a message their default values.
pub mod Depth
use mathlib.Core.Option
use daily_diary.Base.{ℕ, zero, suc, List, [], ◌∷◌, length, Bool, true, false, not, ◌==◌, ◌&&◌, ◌||◌}
use daily_diary.Base.{if◌then◌else◌, Option, none, some}
use daily_diary.Pb.{Field, ltype, htype, atype, ltype_extension, ltype_submessage}
use daily_diary.Pb.{htype_optional, htype_repeated, htype_oneof, atype_static, atype_pointer}
use daily_diary.Pb.Iter.{Iter, field_at, pb_field_iter_begin, pb_field_iter_next}
use daily_diary.Pb.Scalar.{Memory, load, store}
use daily_diary.Pb.Blobs.{store_bytes}
use daily_diary.Pb.Message.{Env, Extension, load_bytes}

-- What a call makes of the memory, `none` where the stack is too small for it, or it does not
-- return.
abbrev pub Change : Type 0
Change = Memory → Option Memory

unfoldable pub and_change : Option Memory → Change → Option Memory
and_change none k = none
and_change (some mem) k = k mem

-- The calls for the iterators of a loop, if it ends.
unfoldable pub each_iterator : (List Iter → Change) → Option (List Iter) → Change
each_iterator calls none mem = none
each_iterator calls (some its) mem = calls its mem

-- The iterator in each round of `do { … } while (pb_field_iter_next(&iter))`.
-- `none` where the loop goes on behind its rounds.
unfoldable pub iterators : ℕ → Iter → Option (List Iter)
iterators zero it = none
iterators (suc rounds) it = elim ((pb_field_iter_next it).1) [
  | true ↦ Option.map (λ its. it ∷ its) (iterators rounds (pb_field_iter_next it).0)
  | false ↦ some (it ∷ [])
]

-- The same behind `pb_field_iter_begin`, with a round for each field.
unfoldable pub message_iterators : List Field → ℕ → Option (List Iter)
message_iterators fields dest =
    if (pb_field_iter_begin fields dest).1
    then iterators (length fields) (pb_field_iter_begin fields dest).0
    else some []

abbrev pub iter_from_extension : Extension → Iter
iter_from_extension x = record (pb_field_iter_begin (x.arg ∷ []) x.dest).0 {
  pdata = if atype x.arg.type == atype_pointer then x.dest_at else x.dest;
  psize = x.found_at;
}

-- `defaults` is `pb_message_set_to_defaults` on the submessage of the field.
unfoldable pub init_data : (ℕ → Change) → Field → ℕ → Change
init_data defaults field pdata mem =
    if ltype field.type == ltype_submessage
    then defaults pdata mem
    else if not (field.ptr == 0)
    then some (store_bytes (load_bytes field.data_size field.ptr mem) pdata mem)
    else some (store field.data_size 0 pdata mem)

abbrev pub counts : Field → Bool
counts field = htype field.type == htype_repeated || htype field.type == htype_oneof

-- The branches for a field that is no extension.
unfoldable pub regular_default : (ℕ → Change) → Field → ℕ → ℕ → Change
regular_default defaults field pdata psize mem =
    if atype field.type == atype_static
    then (if htype field.type == htype_optional && not (psize == pdata)
        then init_data defaults field pdata (store 1 0 psize mem)
        else if counts field
        then some (store 4 0 psize mem)
        else init_data defaults field pdata mem)
    else if atype field.type == atype_pointer
    then some (if counts field then store 4 0 psize (store 8 0 pdata mem) else store 8 0 pdata mem)
    else some mem

-- `field_default` is the call of `pb_field_set_to_default` in the loops below.
module _ (field_default : Iter → Change) where
  -- `while (ext != NULL) { … ext = ext->next; }`.
  unfoldable pub extension_defaults : List Extension → Change
  extension_defaults [] mem = some mem
  extension_defaults (x ∷ rest) mem =
      and_change (field_default (iter_from_extension x) (store 1 0 x.found_at mem))
        (extension_defaults rest)

  unfoldable pub iterator_defaults : List Iter → Change
  iterator_defaults [] mem = some mem
  iterator_defaults (it ∷ rest) mem = and_change (field_default it mem) (iterator_defaults rest)

  unfoldable pub pb_message_set_to_defaults : List Field → ℕ → Change
  pb_message_set_to_defaults fields dest =
      each_iterator iterator_defaults (message_iterators fields dest)

  -- The body of `pb_field_set_to_default`.
  unfoldable pub set_to_default : Env → Iter → Change
  set_to_default env it mem =
      let field = field_at it.start it.pos in
      if ltype field.type == ltype_extension
      then extension_defaults (env.extensions_at (load 8 it.pdata mem)) mem
      else regular_default (pb_message_set_to_defaults (env.fields_at field.ptr)) field it.pdata
          it.psize mem

-- `depth` is how many calls the stack has room for.
unfoldable pub pb_field_set_to_default : ℕ → Env → Iter → Change
pb_field_set_to_default zero env = λ it mem. none
pb_field_set_to_default (suc depth) env = set_to_default (pb_field_set_to_default depth env) env
