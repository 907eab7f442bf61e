-- ===== src/Pb/Decoder/Safe/Returns.antt =====
-- On messages that the stack has room for, the defaults and the release of a message return.
use daily_diary.Base.{ℕ, zero, suc, ◌<◌, ◌≡◌, sym, arith, true, false, not}
use daily_diary.Base.{◌==◌, ◌&&◌, List, All-map, some}
use daily_diary.Pb.{Field, htype, atype, htype_oneof}
use daily_diary.Pb.{atype_static, atype_pointer, htype_optional}
use daily_diary.Pb.Iter.{Iter, field_at, pb_field_iter_begin}
use daily_diary.Pb.Scalar.{Memory, load}
use daily_diary.Pb.Message.{Extension}
use daily_diary.Pb.Defaults.{Change, iter_from_extension, init_data, counts}
use daily_diary.Pb.Defaults.{regular_default, pb_message_set_to_defaults, set_to_default}
use daily_diary.Pb.Defaults.{pb_field_set_to_default}
use daily_diary.Pb.Decoder.{DecodeEnv}
use daily_diary.Pb.Decoder.Fields.Ends.{is_extension}
use daily_diary.Pb.Decoder.Release.{item_count, first_item, pb_release, release_inside}
use daily_diary.Pb.Decoder.Release.{release_single, release_pointer, pb_release_single_field}
use daily_diary.Pb.Decoder.Safe.{Returns}
use daily_diary.Pb.Decoder.Safe.Depth.{
  is_message, is_pointer, IsInside, IsMessage, IsPlainExtension, IsHost,
}
use daily_diary.Pb.Decoder.Safe.Depth.{
  message_iterators-Visits, each-Returns, and_change-Returns, if-Returns,
}
use daily_diary.Pb.Decoder.Safe.Depth.{defaults-Returns, releases-Returns, extensions-Returns}
use daily_diary.Pb.Decoder.Safe.Depth.{release_extensions-Returns, items-Returns}

init_data-Returns :
    (defaults : ℕ → Change) (field : Field) (pdata : ℕ) (mem : Memory)
    → (is_message field ≡ true → (m : Memory) → Returns (defaults pdata m))
    → Returns (init_data defaults field pdata mem)
unfolding init_data
init_data-Returns defaults field pdata mem h =
    if-Returns (is_message field) _ _ (λ c. h c mem)
      (λ c. if-Returns (not (field.ptr == 0)) (some _) (some _) (λ d. tt) (λ d. tt))

regular-Returns :
    (defaults : ℕ → Change) (field : Field) (pdata psize : ℕ) (mem : Memory)
    → (is_message field ≡ true → (m : Memory) → Returns (defaults pdata m))
    → Returns (regular_default defaults field pdata psize mem)
unfolding regular_default
regular-Returns defaults field pdata psize mem h =
    if-Returns (atype field.type == atype_static) _ _
      (λ c.
        if-Returns (htype field.type == htype_optional && not (psize == pdata)) _ _
          (λ d. init_data-Returns defaults field pdata _ h)
          (λ d.
            if-Returns (counts field) (some _) _ (λ e. tt)
              (λ e. init_data-Returns defaults field pdata mem h)))
      (λ c. if-Returns (atype field.type == atype_pointer) (some _) (some mem) (λ d. tt) (λ d. tt))

-- A field that is not on the heap has nothing to be freed.
release_pointer-Returns :
    (free : ℕ → Memory → Memory) (field : Field) (pdata psize : ℕ) (mem : Memory)
    → is_pointer field ≡ false
    → Returns (release_pointer free field pdata psize mem)
unfolding release_pointer
release_pointer-Returns free field pdata psize mem h =
    if-Returns (is_pointer field) _ (some mem) (λ c. absurd (ground arith)) (λ c. tt)

-- The release of a field that is no message, no extension and not on the heap.
pub quiet_release-Returns :
    (host : DecodeEnv) (depth : ℕ) (it : Iter) (mem : Memory)
    → is_extension (field_at it.start it.pos) ≡ false
    → is_message (field_at it.start it.pos) ≡ false
    → is_pointer (field_at it.start it.pos) ≡ false
    → Returns (pb_release_single_field host.pb_free (suc depth) host.env it mem)
unfolding pb_release_single_field release_single release_inside
quiet_release-Returns host depth it mem plain no_message no_pointer =
    let field = field_at it.start it.pos in
    if-Returns (htype field.type == htype_oneof && not (load 4 it.psize mem == field.tag))
      (some mem) _ (λ c. tt)
      (λ c.
        and_change-Returns _ _
          (if-Returns (is_extension field) _ _ (λ d. absurd (ground arith))
            (λ d.
              if-Returns (is_message field && not (first_item field it.pdata mem == 0)) _ (some mem)
                (λ e. absurd (ground arith)) (λ e. tt)))
          (λ m. release_pointer-Returns host.pb_free field it.pdata it.psize m no_pointer))

module _ (host : DecodeEnv) (user : IsHost host) where
  -- The field of an extension, which is no message and no extension.
  plain_default :
      (depth : ℕ) (x : Extension) (mem : Memory)
      → IsPlainExtension host x
      → 0 < depth
      → Returns (pb_field_set_to_default depth host.env (iter_from_extension x) mem)
  unfolding pb_field_set_to_default set_to_default pb_field_iter_begin
  plain_default zero x mem h pos = absurd (omega arith)
  plain_default (suc depth) x mem h pos =
      if-Returns (is_extension x.arg) _ _ (λ c. absurd (ground (arith, h.plain)))
        (λ c. regular-Returns _ x.arg _ _ mem (λ d. absurd (ground (arith, h.no_message))))

  module _ (call : Iter → Change)
      (plain : (x : Extension) (m : Memory)
        → IsPlainExtension host x
        → Returns (call (iter_from_extension x) m)) where
    set-Returns :
        (it : Iter) (mem : Memory)
        → IsInside host.env
            (λ fields. (a : ℕ) (m : Memory) → Returns (pb_message_set_to_defaults call fields a m))
            (field_at it.start it.pos)
        → Returns (set_to_default call host.env it mem)
    unfolding set_to_default
    set-Returns it mem inner =
        let field = field_at it.start it.pos in
        if-Returns (is_extension field) _ _
          (λ c.
            extensions-Returns call _ mem
              (All-map (λ x p m. plain x m p) _ (user.extensions (load 8 it.pdata mem))))
          (λ c. regular-Returns _ field it.pdata it.psize mem (λ d m. inner d it.pdata m))

  -- For messages nested at most `n` deep, as in `pb_decode-Safe`, on a stack with room for more
  -- than `n` calls, `pb_message_set_to_defaults` returns: its loops over the fields of the message
  -- and of the messages inside end, each with a round for each field.
  pub pb_message_set_to_defaults-Returns :
      (n depth : ℕ) (fields : List Field)
      → IsMessage n host.env fields
      → n < depth
      → (dest : ℕ) (mem : Memory)
      → Returns
          (pb_message_set_to_defaults (pb_field_set_to_default depth host.env) fields dest mem)
  unfolding pb_message_set_to_defaults pb_field_set_to_default
  pb_message_set_to_defaults-Returns zero depth fields h less dest mem = absurd (omega (arith, h))
  pb_message_set_to_defaults-Returns (suc n) zero fields h less dest mem = absurd (omega arith)
  pb_message_set_to_defaults-Returns (suc n) (suc depth) fields (shape, inner) less dest mem =
      each-Returns fields _ _ mem (message_iterators-Visits fields dest shape) (λ its ons.
        defaults-Returns _ _ mem (
          All-map
            (λ it on m.
              set-Returns (pb_field_set_to_default depth host.env)
                (λ x m' p. plain_default depth x m' p (omega arith)) it m
                (λ c a m'.
                  pb_message_set_to_defaults-Returns n depth _
                    (rw on.same
                      (inner it.pos (rw (sym on.same) on.is_iter.on_field) (simp on.same at c)))
                    (omega arith) a m'))
            its ons))

  plain_release :
      (depth : ℕ) (x : Extension) (mem : Memory)
      → IsPlainExtension host x
      → 0 < depth
      → Returns (pb_release_single_field host.pb_free depth host.env (iter_from_extension x) mem)
  unfolding pb_field_iter_begin
  plain_release zero x mem h pos = absurd (omega arith)
  plain_release (suc depth) x mem h pos =
      quiet_release-Returns host depth (iter_from_extension x) mem h.plain h.no_message h.no_pointer

  module _ (call : Iter → Change)
      (plain : (x : Extension) (m : Memory)
        → IsPlainExtension host x
        → Returns (call (iter_from_extension x) m)) where
    pub single-Returns :
        (it : Iter) (mem : Memory)
        → IsInside host.env
            (λ fields. (a : ℕ) (m : Memory) → Returns (pb_release host.pb_free call fields a m))
            (field_at it.start it.pos)
        → is_pointer (field_at it.start it.pos) ≡ false
        → Returns (release_single host.pb_free call host.env it mem)
    unfolding release_single release_inside
    single-Returns it mem inner no_pointer =
        let field = field_at it.start it.pos in
        if-Returns (htype field.type == htype_oneof && not (load 4 it.psize mem == field.tag))
          (some mem) _ (λ c. tt)
          (λ c.
            and_change-Returns _ _
              (if-Returns (is_extension field) _ _
                (λ c.
                  release_extensions-Returns call host.pb_free _ mem
                    (All-map (λ x p m. plain x m p) _ (user.extensions (load 8 it.pdata mem))))
                (λ c.
                  if-Returns (is_message field && not (first_item field it.pdata mem == 0)) _
                    (some mem)
                    (λ d.
                      items-Returns (item_count field it.pdata it.psize mem) _ field.data_size
                        (first_item field it.pdata mem) mem (inner (ground arith)))
                    (λ d. tt)))
              (λ m. release_pointer-Returns host.pb_free field it.pdata it.psize m no_pointer))

  pub release-Returns :
      (n depth : ℕ) (fields : List Field)
      → IsMessage n host.env fields
      → n < depth
      → (dest : ℕ) (mem : Memory)
      → Returns (
          pb_release host.pb_free
            (pb_release_single_field host.pb_free depth host.env)
            fields
            dest
            mem)
  unfolding pb_release pb_release_single_field
  release-Returns zero depth fields h less dest mem = absurd (omega (arith, h))
  release-Returns (suc n) zero fields h less dest mem = absurd (omega arith)
  release-Returns (suc n) (suc depth) fields (shape, inner) less dest mem =
      if-Returns (dest == 0) (some mem) _ (λ c. tt)
        (λ c. each-Returns fields _ _ mem (message_iterators-Visits fields dest shape) (λ its ons.
          releases-Returns _ host.pb_free _ mem (
            All-map
              (λ it on m.
                single-Returns (pb_release_single_field host.pb_free depth host.env)
                  (λ x m' p. plain_release depth x m' p (omega arith)) it m
                  (λ c a m'.
                    release-Returns n depth _
                      (rw on.same
                        (inner it.pos (rw (sym on.same) on.is_iter.on_field) (simp on.same at c)))
                      (omega arith) a m')
                  (rw on.same (shape.no_pointer it.pos (rw (sym on.same) on.is_iter.on_field))))
              its ons)))

  -- The release of one field, of messages nested at most `n` deep.
  pub field_release-Returns :
      (n depth : ℕ) (it : Iter) (mem : Memory)
      → IsInside host.env (IsMessage n host.env) (field_at it.start it.pos)
      → is_pointer (field_at it.start it.pos) ≡ false
      → n < depth
      → Returns (pb_release_single_field host.pb_free (suc depth) host.env it mem)
  unfolding pb_release_single_field
  field_release-Returns n depth it mem inner no_pointer less =
      single-Returns (pb_release_single_field host.pb_free depth host.env)
        (λ x m p. plain_release depth x m p (omega arith)) it mem
        (λ c a m. release-Returns n depth _ (inner c) less a m) no_pointer
