-- ===== src/Pb/Decoder/Fields.antt =====
-- `decode_field`, `pb_release_union_field` and the extensions of pb_decode.c: one field of a message.
pub mod Index
pub mod Ends
use daily_diary.Base.{ℕ, zero, suc, ◌==◌, ◌||◌, if◌then◌else◌, Bool, true, false, length}
use daily_diary.Base.{List, [], ◌∷◌, Option, none, some}
use daily_diary.Pb.{Field, ltype, htype, atype, ltype_extension, htype_oneof, atype_static}
use daily_diary.Pb.{atype_pointer, atype_callback, Res, ok, fail, fault}
use daily_diary.Pb.{invalid_field_type, invalid_union_tag, iterator_error}
use daily_diary.Pb.IStream.{IStream, return_error}
use daily_diary.Pb.Iter.{Iter, field_at, pb_field_iter_find, pb_field_iter_next}
use daily_diary.Pb.Scalar.{Memory, load, store}
use daily_diary.Pb.Blobs.{Outcome, and_then}
use daily_diary.Pb.Message.{Extension}
use daily_diary.Pb.Defaults.{Change, iter_from_extension}
use daily_diary.Pb.Static.{ItemDecoder, decode_static_field}
use daily_diary.Pb.Decoder.{DecodeEnv, Result, and_with}
use daily_diary.Pb.Decoder.Pointers.{decode_pointer_field}
use daily_diary.Pb.Decoder.Callbacks.{decode_callback_field}

-- The memory behind a release, `none` where the stack is too small for it.
unfoldable pub released : Option Memory → Iter → Memory → IStream → Result Iter
released none it mem s = (fault, mem)
released (some mem') it mem s = (ok it s, mem')

-- Behind the second `pb_field_iter_find`, with its result.
unfoldable pub restored : Option (Iter × Bool) → Memory → IStream → Result Iter
restored none mem s = (fault, mem)
restored (some (it, true)) mem s = (ok it s, mem)
restored (some (it, false)) mem s = (return_error iterator_error s, mem)

-- Behind the first `pb_field_iter_find`, with its result.
unfoldable pub release_old :
    (Iter → Change) → ℕ → Option (Iter × Bool) → Memory → IStream → Result Iter
unfolding released restored and_with
release_old release new_tag none mem s = (fault, mem)
release_old release new_tag (some (it, true)) mem s =
    and_with (released (release it mem) it mem s)
      (λ it' mem' t. restored (pb_field_iter_find new_tag it') mem' t)
release_old release new_tag (some (it, false)) mem s = (return_error invalid_union_tag s, mem)

-- The result is the iterator as the call leaves it.
unfoldable pub pb_release_union_field : (Iter → Change) → Iter → Memory → IStream → Result Iter
unfolding release_old
pb_release_union_field release it mem s =
    let old_tag = load 4 it.psize mem in
    let new_tag = (field_at it.start it.pos).tag in
    if old_tag == 0 || old_tag == new_tag
    then (ok it s, mem)
    else release_old release new_tag (pb_field_iter_find old_tag it) mem s

-- The result of a call that leaves the iterator alone.
unfoldable pub with_iter : Iter → Outcome → Result Iter
with_iter it (ok _ s, mem) = (ok it s, mem)
with_iter it (fail s, mem) = (fail s, mem)
with_iter it (fault, mem) = (fault, mem)

-- `func` is PB_DECODERS, `defaults` is `pb_message_set_to_defaults` on the fields at an address, and
-- `release` is `pb_release_single_field`.
module _ (host : DecodeEnv) (func : Field → ItemDecoder) (defaults : ℕ → ℕ → Change)
    (release : Iter → Change) where
  -- The `switch`.
  unfoldable pub decode_by_atype : ℕ → Iter → Memory → IStream → Outcome
  decode_by_atype wire_type it mem s =
      let type = (field_at it.start it.pos).type in
      if atype type == atype_static
      then decode_static_field func defaults wire_type it mem s
      else if atype type == atype_pointer
      then decode_pointer_field host.pb_realloc func defaults release wire_type it mem s
      else if atype type == atype_callback
      then decode_callback_field host.decode_callback wire_type it mem s
      else (return_error invalid_field_type s, mem)

  -- The result is the iterator as the call leaves it.
  unfoldable pub decode_field : ℕ → Iter → Memory → IStream → Result Iter
  unfolding pb_release_union_field with_iter
  decode_field wire_type it mem s =
      and_with
        (if htype (field_at it.start it.pos).type == htype_oneof
          then pb_release_union_field release it mem s
          else (ok it s, mem))
        (λ it' mem' t. with_iter it' (decode_by_atype wire_type it' mem' t))

  unfoldable pub default_extension_decoder : Extension → ℕ → ℕ → Memory → IStream → Outcome
  unfolding and_with
  default_extension_decoder x tag wire_type mem s =
      if x.arg.tag == tag
      then and_with (decode_field wire_type (iter_from_extension x) (store 1 1 x.found_at mem) s)
          (λ _ mem' t. (ok tt t, mem'))
      else (ok tt s, mem)

  unfoldable pub decode_one_extension : Extension → ℕ → ℕ → Memory → IStream → Outcome
  decode_one_extension x = elim (host.decode_extension x) [
    | some decode ↦ decode
    | none ↦ default_extension_decoder x
  ]

  -- The `while` loop, with the stream at `pos` on entry.
  unfoldable pub extensions_loop : ℕ → List Extension → ℕ → ℕ → Memory → IStream → Outcome
  unfolding decode_one_extension
  extensions_loop pos [] tag wire_type mem s = (ok tt s, mem)
  extensions_loop pos (x ∷ rest) tag wire_type mem s = elim (pos == s.bytes_left) [
    | true ↦
        and_then (decode_one_extension x tag wire_type mem s)
          (extensions_loop pos rest tag wire_type)
    | false ↦ (ok tt s, mem)
  ]

  unfoldable pub decode_extension : ℕ → ℕ → Iter → Memory → IStream → Outcome
  unfolding extensions_loop
  decode_extension tag wire_type it mem s =
      extensions_loop s.bytes_left (host.env.extensions_at (load 8 it.pdata mem)) tag wire_type mem
        s

-- The `do` loop; `none` is for rounds that did not suffice.
unfoldable pub extension_field_loop : ℕ → ℕ → Iter → Option (Iter × Bool)
extension_field_loop zero start it = none
extension_field_loop (suc rounds) start it =
    elim (ltype (field_at it.start it.pos).type == ltype_extension) [
      | true ↦ some (it, true)
      | false ↦
          let it' = (pb_field_iter_next it).0 in
          elim (it'.pos == start) [
            | true ↦ some (it', false)
            | false ↦ extension_field_loop rounds start it'
          ]
    ]

unfoldable pub find_extension_field : Iter → Option (Iter × Bool)
unfolding extension_field_loop
find_extension_field it = extension_field_loop (suc (length it.start)) it.pos it
