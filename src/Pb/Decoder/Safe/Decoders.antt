-- ===== src/Pb/Decoder/Safe/Decoders.antt =====
-- The field decoders of PB_DECODERS return, and stay inside of the array.
use daily_diary.Base.{ℕ, zero, suc, ◌<◌, ◌≡◌, refl, arith}
use daily_diary.Base.{Bool, true, false, ◌==◌, leb, List}
use daily_diary.Base.{if◌then◌else◌}
use daily_diary.Pb.{Field, ltype, htype, ltype_varint, ltype_uvarint, ltype_svarint, ltype_fixed32}
use daily_diary.Pb.{ltype_fixed64, ltype_bytes, ltype_string, ltype_submessage, htype_repeated}
use daily_diary.Pb.{ltype_fixed_length_bytes, Res, ok, fail, fault}
use daily_diary.Pb.IStream.{IStream}
use daily_diary.Pb.Decode.Bounds.{IsInBounds}
use daily_diary.Pb.Iter.{Iter, field_at}
use daily_diary.Pb.Scalar.{Memory}
use daily_diary.Pb.Blobs.{Outcome}
use daily_diary.Pb.Message.{Extension}
use daily_diary.Pb.Message.Arrays.{last_packable}
use daily_diary.Pb.Defaults.{Change, pb_message_set_to_defaults, pb_field_set_to_default}
use daily_diary.Pb.Static.{ItemDecoder}
use daily_diary.Pb.Decoder.{DecodeEnv}
use daily_diary.Pb.Decoder.Release.{pb_release, pb_release_single_field}
use daily_diary.Pb.Decoder.Messages.{MessageDecoder, close_message, in_substream, release_failed}
use daily_diary.Pb.Decoder.Messages.{
  defaults_at, pb_decode_by, decode_submessage, pb_dec_submessage,
}
use daily_diary.Pb.Decoder.Messages.{pb_decoders}
use daily_diary.Pb.Decoder.Safe.{Safe, Returns, if-Safe, after_change-Safe}
use daily_diary.Pb.Decoder.Safe.{IsSafeItem, IsEating}
use daily_diary.Pb.Decoder.Safe.Scalars.{dec_varint-Safe, dec_uvarint-Safe, dec_svarint-Safe}
use daily_diary.Pb.Decoder.Safe.Scalars.{dec_fixed32-Safe, dec_fixed64-Safe}
use daily_diary.Pb.Decoder.Safe.Blobs.{pb_dec_bytes-Safe, pb_dec_string-Safe}
use daily_diary.Pb.Decoder.Safe.Blobs.{pb_dec_fixed_length_bytes-Safe}
use daily_diary.Pb.Decoder.Safe.Substreams.{
  Frames, Makes, make-Makes, close-Ends, close_failed-Ends,
}
use daily_diary.Pb.Decoder.Safe.Static.{parent_error}
use daily_diary.Pb.Decoder.Safe.Fields.{IsReady, IsReadyExtension}
use daily_diary.Pb.Decoder.Safe.Depth.{is_decodable, IsInside}
use daily_diary.Pb.Decoder.Safe.Depth.{IsPlainExtension, IsHost}
use daily_diary.Pb.Decoder.Safe.Returns.{quiet_release-Returns}

abbrev pub IsSafeMessage : (Memory → IStream → Outcome) → Type 0
IsSafeMessage decode = (mem : Memory) (s : IStream) → IsInBounds s → Safe s (decode mem s)

close_message-Safe :
    (s sub t : IStream) (r : Outcome) → Frames s sub t → Safe sub r → Safe s (close_message t r)
unfolding close_message
close_message-Safe s sub t (ok u sub', mem) frames p = close-Ends s sub t sub' frames p
close_message-Safe s sub t (fail sub', mem) frames p = close_failed-Ends s sub t sub' frames p
close_message-Safe s sub t (fault, mem) frames p = p

pub in_substream-Safe :
    (decode : Memory → IStream → Outcome) (s : IStream) (r : Res IStream IStream) (mem : Memory)
    → IsSafeMessage decode
    → Makes s r
    → Safe s (in_substream decode r mem)
unfolding in_substream
in_substream-Safe decode s (ok sub t) mem safe frames =
    close_message-Safe s sub t _ frames (safe mem sub frames.inner)
in_substream-Safe decode s (fail t) mem safe p = p
in_substream-Safe decode s fault mem safe p = p

release_failed-Safe :
    (release : Change) (s : IStream) (r : Outcome)
    → ((mem : Memory) → Returns (release mem))
    → Safe s r
    → Safe s (release_failed release r)
unfolding release_failed
release_failed-Safe release s (ok u t, mem) h p = p
release_failed-Safe release s (fail t, mem) h p = after_change-Safe s _ mem _ (h mem) (λ m. p)
release_failed-Safe release s (fault, mem) h p = p

-- Either decoder of a type.
if-IsSafeItem :
    (c : Bool) (f g : ItemDecoder)
    → (c ≡ true → IsSafeItem f)
    → (c ≡ false → IsSafeItem g)
    → IsSafeItem (if c then f else g)
if-IsSafeItem true f g p q = p refl
if-IsSafeItem false f g p q = q refl

if-IsEating :
    (c : Bool) (f g : ItemDecoder)
    → IsEating f
    → (c ≡ false → IsEating g)
    → IsEating (if c then f else g)
if-IsEating true f g p q = p
if-IsEating false f g p q = q refl

module _ (host : DecodeEnv) (depth : ℕ) (noinit : MessageDecoder) where
  -- A message whose descriptors are `fields`, with room for it.
  abbrev pub IsInner : List Field → Type 0
  IsInner fields =
      ((dest : ℕ) → IsSafeMessage (noinit fields dest))
      × ((dest : ℕ) (mem : Memory)
          → Returns
              (pb_message_set_to_defaults (pb_field_set_to_default depth host.env) fields dest mem))
      × ((dest : ℕ) (mem : Memory)
          → Returns (
              pb_release host.pb_free (pb_release_single_field host.pb_free depth host.env) fields
                dest mem))

  pub pb_decode_by-Safe :
      (fields : List Field) (dest : ℕ)
      → IsInner fields
      → IsSafeMessage (pb_decode_by host depth noinit fields dest)
  unfolding pb_decode_by
  pb_decode_by-Safe fields dest (safe, initialized, frees) mem s h =
      after_change-Safe s _ mem _ (initialized dest mem)
        (λ mem'. release_failed-Safe _ s _ (frees dest) (safe dest mem' s h))

  submessage-Safe :
      (field : Field) (dest : ℕ) (s : IStream) (r : Res IStream IStream) (mem : Memory)
      → IsInner (host.env.fields_at field.ptr)
      → IsInBounds s
      → Makes s r
      → Safe s (decode_submessage host depth noinit field dest r mem)
  unfolding decode_submessage
  submessage-Safe field dest s (fail t) mem inner h p = p
  submessage-Safe field dest s fault mem inner h p = p
  submessage-Safe field dest s (ok sub t) mem inner h frames =
      if-Safe (field.ptr == 0) s _ _ (λ c. parent_error s sub t _ h frames)
        (λ c.
          in_substream-Safe
            (if htype field.type == htype_repeated
              then pb_decode_by host depth noinit (host.env.fields_at field.ptr) dest
              else noinit (host.env.fields_at field.ptr) dest)
            s (ok sub t) mem (chosen (htype field.type == htype_repeated)) frames)
    where
      chosen :
          (c : Bool)
          → IsSafeMessage (
              if c
              then pb_decode_by host depth noinit (host.env.fields_at field.ptr) dest
              else noinit (host.env.fields_at field.ptr) dest)
      chosen true = pb_decode_by-Safe _ dest inner
      chosen false = inner.0 dest

  decoders-Safe :
      (field : Field)
      → is_decodable field ≡ true
      → IsInside host.env IsInner field
      → IsSafeItem (pb_decoders host depth noinit field)
  unfolding pb_decoders pb_dec_submessage
  decoders-Safe field ready inner =
      let t = ltype field.type in
      if-IsSafeItem (t == ltype_varint) _ _ (λ c a m s h. (dec_varint-Safe field a m s h).0)
        (λ c0.
          if-IsSafeItem (t == ltype_uvarint) _ _ (λ c a m s h. (dec_uvarint-Safe field a m s h).0)
            (λ c1.
              if-IsSafeItem (t == ltype_svarint) _ _
                (λ c a m s h. (dec_svarint-Safe field a m s h).0)
                (λ c2.
                  if-IsSafeItem (t == ltype_fixed32) _ _
                    (λ c a m s h. (dec_fixed32-Safe field a m s h).0)
                    (λ c3.
                      if-IsSafeItem (t == ltype_fixed64) _ _
                        (λ c a m s h. (dec_fixed64-Safe field a m s h).0)
                        (λ c4.
                          if-IsSafeItem (t == ltype_bytes) _ _
                            (λ c. pb_dec_bytes-Safe host.pb_realloc field)
                            (λ c5.
                              if-IsSafeItem (t == ltype_string) _ _
                                (λ c. pb_dec_string-Safe host.pb_realloc field)
                                (λ c6.
                                  if-IsSafeItem (t == ltype_submessage) _ _
                                    (λ c a m s h.
                                      submessage-Safe field a s _ m (inner c) h (make-Makes s h))
                                    (λ c7.
                                      if-IsSafeItem (t == ltype_fixed_length_bytes) _ _
                                        (λ c. pb_dec_fixed_length_bytes-Safe field)
                                        (λ c9. absurd (ground arith))))))))))

  decoders-IsEating :
      (field : Field)
      → leb (ltype field.type) last_packable ≡ true
      → IsEating (pb_decoders host depth noinit field)
  unfolding pb_decoders
  decoders-IsEating field packable =
      let t = ltype field.type in
      if-IsEating (t == ltype_varint) _ _ (λ a m s h. (dec_varint-Safe field a m s h).1)
        (λ c0.
          if-IsEating (t == ltype_uvarint) _ _ (λ a m s h. (dec_uvarint-Safe field a m s h).1)
            (λ c1.
              if-IsEating (t == ltype_svarint) _ _ (λ a m s h. (dec_svarint-Safe field a m s h).1)
                (λ c2.
                  if-IsEating (t == ltype_fixed32) _ _
                    (λ a m s h. (dec_fixed32-Safe field a m s h).1)
                    (λ c3.
                      if-IsEating (t == ltype_fixed64) _ _
                        (λ a m s h. (dec_fixed64-Safe field a m s h).1)
                        (λ c4. absurd (ground arith))))))

  module _ (user : IsHost host) where
    -- What the field decoders ask of a field.
    abbrev pub Ready : Field → Type 0
    Ready =
        IsReady host (pb_decoders host depth noinit) (defaults_at host depth)
          (pb_release_single_field host.pb_free depth host.env)

    pub field-Ready :
        (field : Field)
        → is_decodable field ≡ true
        → IsInside host.env IsInner field
        → ((it : Iter) (mem : Memory)
            → field_at it.start it.pos ≡ field
            → Returns (pb_release_single_field host.pb_free depth host.env it mem))
        → Ready field
    field-Ready field d inner frees = record {
      safe = decoders-Safe field d inner;
      eats = decoders-IsEating field;
      sized = ground arith;
      initialized = λ c. (inner (ground arith)).1;
      frees = frees;
    }

    pub extension_ready :
        (x : Extension)
        → IsPlainExtension host x
        → 0 < depth
        → IsReadyExtension host
            (pb_decoders host depth noinit)
            (defaults_at host depth)
            (pb_release_single_field host.pb_free depth host.env)
            user.reading
            x
    extension_ready x plain room = record {
      custom = plain.custom;
      tagged = plain.tagged;
      plain = plain.plain;
      ready =
          field-Ready x.arg plain.decodable (λ c. absurd (ground (arith, plain.no_message)))
            (λ it mem e. frees depth it mem room e);
    }
      where
        frees :
            (d : ℕ) (it : Iter) (mem : Memory)
            → 0 < d
            → field_at it.start it.pos ≡ x.arg
            → Returns (pb_release_single_field host.pb_free d host.env it mem)
        frees zero it mem pos e = absurd (omega arith)
        frees (suc d) it mem pos e =
            quiet_release-Returns host d it mem (rw e plain.plain) (rw e plain.no_message)
              (rw e plain.no_pointer)
