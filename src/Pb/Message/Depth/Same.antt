-- ===== src/Pb/Message/Depth/Same.antt =====
-- Where the calls on the messages inside agree, so do the calls on the fields around them.
use mathlib.Core.Path.{fun_ext}
use daily_diary.Base.{ℕ, zero, suc, ◌≡◌, refl, ap, ◌∙◌, List, [], ◌∷◌, get_or, All, AllIn}
use daily_diary.Base.{Bool, Bool-cases, inl, inr, if◌then◌else◌, ◌==◌, Option, none, some}
use daily_diary.Pb.{Field, ltype, ltype_extension}
use daily_diary.Pb.Scalar.{load}
use daily_diary.Pb.Message.{Action, MessageEncoder, Env, Extension}
use daily_diary.Pb.Message.Values.{call, pb_encoders, encoder_of, pb_enc_submessage}
use daily_diary.Pb.Message.Submessage.{pb_encode_submessage}
use daily_diary.Pb.Message.Absent.{message_visits, all_default, all_visited, check_default_value}
use daily_diary.Pb.Message.Fields.{
  implicit_has, encode_present, encode_basic_field, encode_callback_field, encode_field,
  default_extension_encoder,
}
use daily_diary.Pb.Message.Fields.{
  encode_extension, encode_extensions, encode_extension_field, encode_visit, encode_visits,
  encode_visited,
}

-- The extensions that a field stands for.
abbrev pub visited_extensions : Env → Field × ℕ → List Extension
visited_extensions env (field, p) =
    if ltype field.type == ltype_extension then env.extensions_at (load 8 p env.mem) else []

all_default-same :
    (check check' : Field → ℕ → Option Bool) (vs : List (Field × ℕ))
    → All (λ v. check v.0 ≡ check' v.0) vs
    → all_default check vs ≡ all_default check' vs
unfolding all_default
all_default-same check check' [] h = refl
all_default-same check check' ((field, p) ∷ vs) (e, es) =
    let here : check field p ≡ check' field p = ap (λ f. f p) e in
    rw (here, all_default-same check check' vs es) refl

pub all_visited-same :
    (check check' : Field → ℕ → Option Bool) (vs : Option (List (Field × ℕ)))
    → AllIn (λ v. check v.0 ≡ check' v.0) vs
    → all_visited check vs ≡ all_visited check' vs
unfolding all_visited
all_visited-same check check' none h = refl
all_visited-same check check' (some vs) h = all_default-same check check' vs h

pub check_default_value-same :
    (check check' : Field → ℕ → Option Bool) (env : Env) (field : Field)
    → ((p : ℕ)
        → all_visited check (message_visits (env.fields_at field.ptr) p)
          ≡ all_visited check' (message_visits (env.fields_at field.ptr) p))
    → check_default_value check env field ≡ check_default_value check' env field
unfolding check_default_value
check_default_value-same check check' env field h = fun_ext (λ p. rw (h p) refl)

module _ (pb_encode pb_encode' : MessageEncoder) (is_default is_default' : Field → ℕ → Option Bool)
    (env : Env) where
  -- The calls on a field agree.
  abbrev pub IsSame : Field → Type 0
  IsSame field =
      (pb_encode (env.fields_at field.ptr) ≡ pb_encode' (env.fields_at field.ptr))
      × (is_default field ≡ is_default' field)

  submessage-same :
      (field : Field)
      → pb_encode (env.fields_at field.ptr) ≡ pb_encode' (env.fields_at field.ptr)
      → pb_enc_submessage pb_encode env field ≡ pb_enc_submessage pb_encode' env field
  unfolding pb_enc_submessage pb_encode_submessage
  submessage-same field e = fun_ext (λ p. rw e refl)

  table-same :
      (t : ℕ) (field : Field)
      → pb_encode (env.fields_at field.ptr) ≡ pb_encode' (env.fields_at field.ptr)
      → call (get_or (pb_encoders pb_encode env) t none) field
        ≡ call (get_or (pb_encoders pb_encode' env) t none) field
  unfolding pb_encoders call
  table-same zero field e = refl
  table-same (suc zero) field e = refl
  table-same (suc (suc zero)) field e = refl
  table-same (suc (suc (suc zero))) field e = refl
  table-same (suc (suc (suc (suc zero)))) field e = refl
  table-same (suc (suc (suc (suc (suc zero))))) field e = refl
  table-same (suc (suc (suc (suc (suc (suc zero)))))) field e = refl
  table-same (suc (suc (suc (suc (suc (suc (suc zero))))))) field e = submessage-same field e
  table-same (suc (suc (suc (suc (suc (suc (suc (suc t)))))))) field e = refl

  encoder_of-same :
      (field : Field)
      → IsSame field
      → call (encoder_of pb_encode env field) field ≡ call (encoder_of pb_encode' env field) field
  unfolding encoder_of
  encoder_of-same field e = table-same (ltype field.type) field e.0

  basic_field-same :
      (field : Field) (p : ℕ)
      → IsSame field
      → encode_basic_field pb_encode is_default env field p
        ≡ encode_basic_field pb_encode' is_default' env field p
  unfolding encode_basic_field
  basic_field-same field p e =
      ap (λ f. encode_present f env field p (implicit_has field (is_default field p)))
        (encoder_of-same field e)
      ∙ ap
          (λ d.
            encode_present (call (encoder_of pb_encode' env field) field) env field p
              (implicit_has field (d p)))
          e.1

  encode_field-same :
      (field : Field) (p : ℕ)
      → IsSame field
      → encode_field pb_encode is_default env field p
        ≡ encode_field pb_encode' is_default' env field p
  unfolding encode_field encode_callback_field
  encode_field-same field p e = rw (basic_field-same field p e) refl

  default-same :
      (x : Extension)
      → IsSame x.arg
      → default_extension_encoder pb_encode is_default env x
        ≡ default_extension_encoder pb_encode' is_default' env x
  unfolding default_extension_encoder
  default-same x e = rw (encode_field-same x.arg x.dest e, encode_field-same x.arg x.dest_at e) refl

  extension-same :
      (x : Extension)
      → IsSame x.arg
      → encode_extension pb_encode is_default env x ≡ encode_extension pb_encode' is_default' env x
  unfolding encode_extension
  extension-same x e =
      ap (λ d. elim x.encode as (λ o. Action) [ none ↦ d | some encode ↦ encode ])
        (default-same x e)

  extensions-same :
      (xs : List Extension)
      → All (λ x. IsSame x.arg) xs
      → encode_extensions pb_encode is_default env xs
        ≡ encode_extensions pb_encode' is_default' env xs
  unfolding encode_extensions
  extensions-same [] es = refl
  extensions-same (x ∷ xs) (e, es) = rw (extension-same x e, extensions-same xs es) refl

  visit-same :
      (field : Field) (p : ℕ)
      → IsSame field
      → All (λ x. IsSame x.arg) (visited_extensions env (field, p))
      → encode_visit pb_encode is_default env field p
        ≡ encode_visit pb_encode' is_default' env field p
  unfolding encode_visit encode_extension_field
  visit-same field p e es = elim (Bool-cases (ltype field.type == ltype_extension)) [
    | inl c ↦ rw c (extensions-same _ (simp c at es))
    | inr c ↦ rw c (encode_field-same field p e)
  ]

  visits-same :
      (vs : List (Field × ℕ))
      → All (λ v. IsSame v.0 × All (λ x. IsSame x.arg) (visited_extensions env v)) vs
      → encode_visits pb_encode is_default env vs ≡ encode_visits pb_encode' is_default' env vs
  unfolding encode_visits
  visits-same [] es = refl
  visits-same ((field, p) ∷ vs) ((e, xs), es) = rw (visit-same field p e xs, visits-same vs es) refl

  pub visited-same :
      (vs : Option (List (Field × ℕ)))
      → AllIn (λ v. IsSame v.0 × All (λ x. IsSame x.arg) (visited_extensions env v)) vs
      → encode_visited pb_encode is_default env vs ≡ encode_visited pb_encode' is_default' env vs
  unfolding encode_visited
  visited-same none es = refl
  visited-same (some vs) es = visits-same vs es
