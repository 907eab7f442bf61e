-- ===== src/Pb/Decoder/Safe/Fields.antt =====
-- `decode_field` and the extensions return, and stay inside of the array.
use daily_diary.Base.{ℕ, zero, suc, ◌^◌, ◌<◌, ◌≡◌, refl, sym, arith}
use daily_diary.Base.{Bool, true, false, ◌==◌, ◌||◌, leb, Option, none, some, List, [], ◌∷◌}
use daily_diary.Base.{length, All}
use daily_diary.Pb.{Field, ltype, htype, atype, ltype_submessage, htype_oneof}
use daily_diary.Pb.{atype_static, atype_pointer, atype_callback, ok, fail, fault}
use daily_diary.Pb.IStream.{IStream}
use daily_diary.Pb.Decode.Bounds.{IsInBounds, Follows-refl}
use daily_diary.Pb.Iter.{Iter, field_at, pb_field_iter_begin, is_wanted}
use daily_diary.Pb.Iter.Index.{IsIndexed, required_before}
use daily_diary.Pb.Iter.Ends.{EndsOn, find-EndsOn}
use daily_diary.Pb.Scalar.{Memory, load}
use daily_diary.Pb.Blobs.{Outcome}
use daily_diary.Pb.Defaults.{Change, iter_from_extension}
use daily_diary.Pb.Message.{Extension}
use daily_diary.Pb.Message.Arrays.{last_packable}
use daily_diary.Pb.Static.{ItemDecoder, decode_static_field}
use daily_diary.Pb.Decoder.{DecodeEnv}
use daily_diary.Pb.Decoder.Pointers.{decode_pointer_field}
use daily_diary.Pb.Decoder.Fields.{released, restored, release_old, pb_release_union_field}
use daily_diary.Pb.Decoder.Fields.{with_iter, decode_by_atype, decode_field, decode_one_extension}
use daily_diary.Pb.Decoder.Fields.{default_extension_decoder, extensions_loop, decode_extension}
use daily_diary.Pb.Decoder.Fields.Ends.{is_extension}
use daily_diary.Pb.Decoder.Safe.{Safe, Returns, Ends-error, if-Safe}
use daily_diary.Pb.Decoder.Safe.{and_then-Safe, and_with-Safe, IsSafeItem, IsEating}
use daily_diary.Pb.Decoder.Safe.Static.{decode_by_htype-Safe}
use daily_diary.Pb.Decoder.Safe.Pointers.{pointer_by_htype-Safe}
use daily_diary.Pb.Decoder.Safe.Callbacks.{IsReading, decode_callback_field-Safe}
use daily_diary.Pb.Decoder.Safe.Results.{
  SafeWith, and_with-SafeWith, if-SafeWith, and_with-SafeBoth,
}

module _ (host : DecodeEnv) (func : Field → ItemDecoder) (defaults : ℕ → ℕ → Change)
    (release : Iter → Change) where
  -- What the decoders of the types and the calls for the messages inside do with a field.
  pub record IsReady (field : Field) : Type 0 where
    pub safe : IsSafeItem (func field)
    pub eats : leb (ltype field.type) last_packable ≡ true → IsEating (func field)
    pub sized : (field.data_size == 0) ≡ false
    pub initialized :
        ltype field.type ≡ ltype_submessage
        → (a : ℕ) (mem : Memory) → Returns (defaults field.ptr a mem)
    pub frees :
        (it : Iter) (mem : Memory) → field_at it.start it.pos ≡ field → Returns (release it mem)

  with_iter-Safe : (it : Iter) (s : IStream) (r : Outcome) → Safe s r → Safe s (with_iter it r)
  unfolding with_iter
  with_iter-Safe it s (ok u t, mem) p = p
  with_iter-Safe it s (fail t, mem) p = p
  with_iter-Safe it s (fault, mem) p = p

  module _
      (reading : (f : ℕ) (field : Field) (arg : ℕ)
        → IsReading (host.decode_callback f field arg)) where
    by_atype-Safe :
        (wire_type : ℕ) (it : Iter) (mem : Memory) (s : IStream)
        → IsReady (field_at it.start it.pos)
        → IsInBounds s
        → Safe s (decode_by_atype host func defaults release wire_type it mem s)
    unfolding decode_by_atype decode_static_field decode_pointer_field
    by_atype-Safe wire_type it mem s ready h =
        let field = field_at it.start it.pos in
        if-Safe (atype field.type == atype_static) s _ _
          (λ c.
            decode_by_htype-Safe field it.pdata it.psize (func field) ready.safe
              (defaults field.ptr) ready.initialized wire_type mem s ready.eats h)
          (λ c.
            if-Safe (atype field.type == atype_pointer) s _ _
              (λ c.
                pointer_by_htype-Safe host.pb_realloc (func field) (defaults field.ptr) (release it)
                  field it.pdata it.psize ready.safe ready.initialized
                  (λ e m. ready.frees it m refl) wire_type mem s ready.eats ready.sized h)
              (λ c.
                if-Safe (atype field.type == atype_callback) s _ _
                  (λ c.
                    decode_callback_field-Safe host.decode_callback wire_type it mem s reading h)
                  (λ c. Ends-error s _ h)))

    module _ (fields : List Field) (word : length fields < 2 ^ 32)
        (ready : (j : ℕ)
          → j < length fields
          → is_extension (field_at fields j) ≡ false
          → IsReady (field_at fields j)) where
      -- The iterator on a field that is no extension.
      abbrev pub OnField : Iter → Type 0
      OnField it = IsIndexed fields it × (is_extension (field_at it.start it.pos) ≡ false)

      field_at-IsReady : (it : Iter) → OnField it → IsReady (field_at it.start it.pos)
      field_at-IsReady it (h, plain) =
          rw h.same (ready it.pos (rw (sym h.same) h.is_iter.on_field) (simp h.same at plain))

      restored-Safe :
          (tag : ℕ) (r : Option (Iter × Bool)) (mem : Memory) (s : IStream)
          → IsInBounds s
          → EndsOn fields word (is_wanted tag) r
          → SafeWith OnField s (restored r mem s)
      unfolding restored
      restored-Safe tag none mem s h e = e
      restored-Safe tag (some (it, true)) mem s h (e, w) = (Follows-refl s h, (e, ground arith))
      restored-Safe tag (some (it, false)) mem s h e = Ends-error s _ h

      released-Safe :
          (r : Option Memory) (it : Iter) (mem : Memory) (s : IStream)
          → IsInBounds s
          → Returns r
          → OnField it
          → SafeWith OnField s (released r it mem s)
      unfolding released
      released-Safe none it mem s h r o = absurd r
      released-Safe (some mem') it mem s h r o = (Follows-refl s h, o)

      release_old-Safe :
          (old_tag tag : ℕ) (r : Option (Iter × Bool)) (mem : Memory) (s : IStream)
          → IsInBounds s
          → EndsOn fields word (is_wanted old_tag) r
          → SafeWith OnField s (release_old release tag r mem s)
      unfolding release_old
      release_old-Safe old_tag tag none mem s h e = e
      release_old-Safe old_tag tag (some (it, true)) mem s h (e, w) =
          let on : OnField it = (e, ground arith) in
          and_with-SafeBoth OnField OnField s _ _ h
            (released-Safe _ it mem s h ((field_at-IsReady it on).frees it mem refl) on)
            (λ it' mem' t k (e', plain).
              restored-Safe tag _ mem' t k (find-EndsOn fields word tag it' e'))
      release_old-Safe old_tag tag (some (it, false)) mem s h e = Ends-error s _ h

      union-Safe :
          (it : Iter) (mem : Memory) (s : IStream)
          → IsInBounds s
          → OnField it
          → SafeWith OnField s (pb_release_union_field release it mem s)
      unfolding pb_release_union_field
      union-Safe it mem s h on =
          let old_tag = load 4 it.psize mem in
          if-SafeWith OnField (old_tag == 0 || old_tag == (field_at it.start it.pos).tag) s
            (ok it s, mem) _ (Follows-refl s h, on)
            (release_old-Safe old_tag _ _ mem s h (find-EndsOn fields word old_tag it on.0))

      pub decode_field-Safe :
          (wire_type : ℕ) (it : Iter) (mem : Memory) (s : IStream)
          → IsInBounds s
          → OnField it
          → Safe s (decode_field host func defaults release wire_type it mem s)
      unfolding decode_field
      decode_field-Safe wire_type it mem s h on =
          and_with-SafeWith OnField s _ _ h
            (if-SafeWith OnField (htype (field_at it.start it.pos).type == htype_oneof) s _
              (ok it s, mem) (union-Safe it mem s h on) (Follows-refl s h, on))
            (λ it' mem' t k on'.
              with_iter-Safe it' t _
                (by_atype-Safe wire_type it' mem' t (field_at-IsReady it' on') k))

    -- What an extension has to be.
    pub record IsReadyExtension (x : Extension) : Type 0 where
      pub custom :
          (decode : ℕ → ℕ → Memory → IStream → Outcome)
          → host.decode_extension x ≡ some decode
          → (tag wire_type : ℕ) (mem : Memory) (s : IStream) → IsInBounds s
          → Safe s (decode tag wire_type mem s)
      pub tagged : 0 < x.arg.tag
      pub plain : is_extension x.arg ≡ false
      pub ready : IsReady x.arg

    module _ (x : Extension) (ready : IsReadyExtension x) where
      only_field :
          (j : ℕ)
          → j < 1
          → is_extension (field_at (x.arg ∷ []) j) ≡ false
          → IsReady (field_at (x.arg ∷ []) j)
      only_field zero h plain = ready.ready
      only_field (suc j) h plain = absurd (omega arith)

      only_tagged : (j : ℕ) → j < 1 → 0 < (field_at (x.arg ∷ []) j).tag
      only_tagged zero h = ready.tagged
      only_tagged (suc j) h = absurd (omega arith)

      extension-IsIndexed : IsIndexed (x.arg ∷ []) (iter_from_extension x)
      unfolding pb_field_iter_begin required_before
      extension-IsIndexed = record {
        same = refl;
        is_iter = record { on_field = omega arith; tagged = only_tagged };
        index = refl;
      }

      extension_plain :
          is_extension (field_at (iter_from_extension x).start (iter_from_extension x).pos) ≡ false
      unfolding pb_field_iter_begin
      extension_plain = ready.plain

      default_extension-Safe :
          (tag wire_type : ℕ) (mem : Memory) (s : IStream)
          → IsInBounds s
          → Safe s (default_extension_decoder host func defaults release x tag wire_type mem s)
      unfolding default_extension_decoder
      default_extension-Safe tag wire_type mem s h =
          if-Safe (x.arg.tag == tag) s _ (ok tt s, mem)
            (λ c.
              and_with-Safe s _ _ h
                (decode_field-Safe (x.arg ∷ []) (omega arith) only_field wire_type
                  (iter_from_extension x) _ s h (extension-IsIndexed, extension_plain))
                (λ it mem' t k p. Follows-refl t k))
            (λ c. Follows-refl s h)

      one_extension-Safe :
          (tag wire_type : ℕ) (mem : Memory) (s : IStream)
          → IsInBounds s
          → Safe s (decode_one_extension host func defaults release x tag wire_type mem s)
      unfolding decode_one_extension
      one_extension-Safe tag wire_type mem s h = choose (host.decode_extension x) refl
        where
          choose :
              (r : Option (ℕ → ℕ → Memory → IStream → Outcome))
              → host.decode_extension x ≡ r
              → Safe s (
                  (elim r as (λ r. ℕ → ℕ → Memory → IStream → Outcome) [
                    | some decode ↦ decode
                    | none ↦ default_extension_decoder host func defaults release x
                  ])
                    tag wire_type mem s)
          choose (some decode) e = ready.custom decode e tag wire_type mem s h
          choose none e = default_extension-Safe tag wire_type mem s h

    extensions_loop-Safe :
        (pos : ℕ) (xs : List Extension) (tag wire_type : ℕ) (mem : Memory) (s : IStream)
        → All IsReadyExtension xs
        → IsInBounds s
        → Safe s (extensions_loop host func defaults release pos xs tag wire_type mem s)
    unfolding extensions_loop
    extensions_loop-Safe pos [] tag wire_type mem s rs h = Follows-refl s h
    extensions_loop-Safe pos (x ∷ xs) tag wire_type mem s (r, rs) h =
        either (pos == s.bytes_left) _ (
          and_then-Safe s _ _ h (one_extension-Safe x r tag wire_type mem s h)
            (λ mem' t k. extensions_loop-Safe pos xs tag wire_type mem' t rs k))
      where
        either :
            (c : Bool) (r : Outcome)
            → Safe s r
            → Safe s (elim c [ true ↦ r | false ↦ (ok tt s, mem) ])
        either true r p = p
        either false r p = Follows-refl s h

    pub decode_extension-Safe :
        (tag wire_type : ℕ) (it : Iter) (mem : Memory) (s : IStream)
        → All IsReadyExtension (host.env.extensions_at (load 8 it.pdata mem))
        → IsInBounds s
        → Safe s (decode_extension host func defaults release tag wire_type it mem s)
    unfolding decode_extension
    decode_extension-Safe tag wire_type it mem s rs h =
        extensions_loop-Safe s.bytes_left _ tag wire_type mem s rs h
