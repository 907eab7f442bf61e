-- ===== src/Pb/Message/Depth.antt =====
-- How deep the calls of the message encoder go: as deep as the messages are nested.
pub mod Same
use mathlib.Core.Path.{fun_ext}
use daily_diary.Base.{
  All-map, AllIn-map, AllIn, ℕ, zero, suc, ◌<◌, ◌≡◌, refl, ap, ◌∙◌, arith, List, [], ◌∷◌, get_or,
  All,
}
use daily_diary.Base.{Bool, Bool-cases, inl, inr, if◌then◌else◌, ◌==◌, Option, none, some}
use daily_diary.Pb.{Field, ltype, ltype_extension}
use daily_diary.Pb.Iter.{pb_field_iter_begin}
use daily_diary.Pb.Scalar.{load}
use daily_diary.Pb.Message.{Action, MessageEncoder, Env, Extension}
use daily_diary.Pb.Message.Values.{call, pb_encoders, encoder_of, pb_enc_submessage}
use daily_diary.Pb.Message.Submessage.{pb_encode_submessage}
use daily_diary.Pb.Message.Absent.{
  message_visits, all_visited, check_default_value, pb_check_proto3_default_value,
}
use daily_diary.Pb.Message.Fields.{
  implicit_has, encode_present, encode_basic_field, encode_callback_field, encode_field,
  default_extension_encoder,
}
use daily_diary.Pb.Message.Fields.{
  encode_extension, encode_extensions, encode_extension_field, encode_visit, encode_visited,
}
use daily_diary.Pb.Message.Encode.{pb_encode}
use daily_diary.Pb.Message.Depth.Same.{
  visited_extensions, all_visited-same, check_default_value-same, visited-same,
}

-- Messages nested `n` deep at most, in fields and in extensions. A field that is no message counts
-- as an empty one, and one whose loop does not end is nested any number deep.
abbrev pub IsNested : ℕ → Env → List Field → Type 0
IsNested zero env fields = fields ≡ []
IsNested (suc n) env fields =
    (src : ℕ)
    → AllIn
        (λ v.
          IsNested n env (env.fields_at v.0.ptr)
          × All (λ x. IsNested n env (env.fields_at x.arg.ptr)) (visited_extensions env v))
        (message_visits fields src)

no_visits : (fields : List Field) (src : ℕ) → fields ≡ [] → message_visits fields src ≡ some []
unfolding message_visits pb_field_iter_begin
no_visits fields src e = rw e refl

check-depth :
    (n d d' : ℕ) (env : Env) (field : Field)
    → IsNested n env (env.fields_at field.ptr)
    → n < d
    → n < d'
    → pb_check_proto3_default_value d env field ≡ pb_check_proto3_default_value d' env field
unfolding pb_check_proto3_default_value
check-depth n zero d' env field nested h h' = absurd (omega arith)
check-depth n (suc d) zero env field nested h h' = absurd (omega arith)
check-depth zero (suc d) (suc d') env field nested h h' =
    check_default_value-same _ _ env field
      (λ p. rw (no_visits _ p nested) (all_visited-same _ _ (some []) tt))
check-depth (suc n) (suc d) (suc d') env field nested h h' =
    check_default_value-same _ _ env field (λ p.
      all_visited-same _ _ (message_visits (env.fields_at field.ptr) p) (
        AllIn-map (λ v inner. check-depth n d d' env v.0 inner.0 (omega arith) (omega arith)) _
          (nested p)))

-- For messages nested at most `n` deep, in fields and extensions, where a field that is no
-- message counts as an empty one, `pb_encode` does the same on any two stacks with room for more
-- than `n` calls.
pub pb_encode_deep_enough :
    (n depth depth' : ℕ) (env : Env) (fields : List Field)
    → IsNested n env fields
    → n < depth
    → n < depth'
    → pb_encode depth env fields ≡ pb_encode depth' env fields
unfolding pb_encode
pb_encode_deep_enough n zero d' env fields nested h h' = absurd (omega arith)
pb_encode_deep_enough n (suc d) zero env fields nested h h' = absurd (omega arith)
pb_encode_deep_enough zero (suc d) (suc d') env fields nested h h' =
    fun_ext (λ src. rw (no_visits fields src nested) refl)
pb_encode_deep_enough (suc n) (suc d) (suc d') env fields nested h h' = fun_ext (λ src.
    visited-same _ _ _ _ env (message_visits fields src) (
      AllIn-map
        (λ v inner. (
          (
            pb_encode_deep_enough n d d' env (env.fields_at v.0.ptr) inner.0 (omega arith)
                (omega arith),
            check-depth n (suc d) (suc d') env v.0 inner.0 (omega arith) (omega arith),
          ),
          All-map
              (λ x inside. (
                pb_encode_deep_enough n d d' env (env.fields_at x.arg.ptr) inside (omega arith)
                    (omega arith),
                check-depth n (suc d) (suc d') env x.arg inside (omega arith) (omega arith),
              ))
              _ inner.1,
        ))
        _ (nested src)))
