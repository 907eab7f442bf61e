-- ===== src/Pb/Decoder/Release.antt =====
-- `pb_release` and `pb_release_single_field` of pb_decode.c, which free what a message points to.
use daily_diary.Base.{ℕ, zero, suc, ◌+◌, Bool, ◌==◌, ◌&&◌, ◌||◌, not, u64, ltb, if◌then◌else◌}
use daily_diary.Base.{List, [], ◌∷◌, some, none}
use daily_diary.Pb.{Field, ltype, htype, atype, ltype_extension, ltype_submessage, ltype_string}
use daily_diary.Pb.{ltype_bytes, htype_repeated, htype_oneof, atype_static, atype_pointer}
use daily_diary.Pb.Iter.{Iter, field_at}
use daily_diary.Pb.Scalar.{Memory, load, store}
use daily_diary.Pb.Message.{Env, Extension}
use daily_diary.Pb.Defaults.{
  Change, and_change, each_iterator, message_iterators, iter_from_extension,
}

-- `count` of a submessage: one, or the entries of an array.
abbrev pub item_count : Field → ℕ → ℕ → Memory → ℕ
item_count field pdata psize mem =
    if htype field.type == htype_repeated
    then (if atype field.type == atype_static
          && (psize == pdata || ltb field.array_size (load 4 psize mem))
        then field.array_size
        else load 4 psize mem)
    else 1

-- `pItem` of a submessage.
abbrev pub first_item : Field → ℕ → Memory → ℕ
first_item field pdata mem = if atype field.type == atype_pointer then load 8 pdata mem else pdata

-- `while (count--)` over the messages in a field; `release` is `pb_release(iter->pos->ptr, ·)`.
-- Where an array on the heap ends is not part of the memory.
unfoldable pub release_items : ℕ → (ℕ → Change) → ℕ → ℕ → Change
release_items zero release data_size item mem = some mem
release_items (suc count) release data_size item mem =
    and_change (release item mem) (release_items count release data_size (u64 (item + data_size)))

-- The entries of the array are pointers.
abbrev pub is_blob : Field → Bool
is_blob field = ltype field.type == ltype_string || ltype field.type == ltype_bytes

module _ (pb_free : ℕ → Memory → Memory) where
  -- `while (count--)` over the pointers in an array of strings or bytes. There is no array behind
  -- NULL.
  unfoldable pub free_entries : ℕ → ℕ → Change
  free_entries zero item mem = some mem
  free_entries (suc count) item mem =
      let rest =
        free_entries count (u64 (item + 8)) (store 8 0 item (pb_free (load 8 item mem) mem)) in
      if item == 0 then none else rest

  abbrev pub release_entries : Field → ℕ → ℕ → Change
  release_entries field pdata psize mem =
      if htype field.type == htype_repeated && is_blob field
      then free_entries (load 4 psize mem) (load 8 pdata mem) mem
      else some mem

  abbrev pub reset_count : Field → ℕ → Memory → Memory
  reset_count field psize mem =
      if htype field.type == htype_repeated then store 4 0 psize mem else mem

  abbrev pub free_main : ℕ → Memory → Memory
  free_main pdata mem = store 8 0 pdata (pb_free (load 8 pdata mem) mem)

  -- The branch for pointers.
  unfoldable pub release_pointer : Field → ℕ → ℕ → Change
  unfolding free_entries
  release_pointer field pdata psize mem =
      if atype field.type == atype_pointer
      then and_change (release_entries field pdata psize mem)
          (λ mem'. some (free_main pdata (reset_count field psize mem')))
      else some mem

  -- `release_field` is the call of `pb_release_single_field` in the loops below.
  module _ (release_field : Iter → Change) where
    unfoldable pub release_extensions : List Extension → Change
    release_extensions [] mem = some mem
    release_extensions (x ∷ rest) mem =
        and_change (release_field (iter_from_extension x) mem) (release_extensions rest)

    unfoldable pub release_iterators : List Iter → Change
    release_iterators [] mem = some mem
    release_iterators (it ∷ rest) mem = and_change (release_field it mem) (release_iterators rest)

    unfoldable pub pb_release : List Field → ℕ → Change
    pb_release fields dest mem =
        if dest == 0
        then some mem
        else each_iterator release_iterators (message_iterators fields dest) mem

    -- What is inside an extension or a submessage.
    unfoldable pub release_inside : Env → Field → ℕ → ℕ → Change
    release_inside env field pdata psize mem =
        if ltype field.type == ltype_extension
        then release_extensions (env.extensions_at (load 8 pdata mem)) mem
        else if ltype field.type == ltype_submessage && not (first_item field pdata mem == 0)
        then release_items (item_count field pdata psize mem) (pb_release (env.fields_at field.ptr))
            field.data_size (first_item field pdata mem) mem
        else some mem

    -- The body of `pb_release_single_field`.
    unfoldable pub release_single : Env → Iter → Change
    unfolding release_inside
    release_single env it mem =
        let field = field_at it.start it.pos in
        if htype field.type == htype_oneof && not (load 4 it.psize mem == field.tag)
        then some mem
        else and_change (release_inside env field it.pdata it.psize mem)
            (release_pointer field it.pdata it.psize)

  -- `depth` is how many calls the stack has room for.
  unfoldable pub pb_release_single_field : ℕ → Env → Iter → Change
  pb_release_single_field zero env = λ it mem. none
  pb_release_single_field (suc depth) env = release_single (pb_release_single_field depth env) env
