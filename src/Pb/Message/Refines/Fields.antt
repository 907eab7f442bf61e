-- ===== src/Pb/Message/Refines/Fields.antt =====
-- Callbacks, extensions, and the fields of a message.
use daily_diary.Base.{ℕ, ◌+◌, ◌≡◌, refl, ap, List, [], ◌∷◌}
use daily_diary.Base.{if◌then◌else◌, Bool, ◌||◌, Option, none, some, ◌==◌}
use daily_diary.Pb.{Field, ltype, atype, first_error, ltype_extension}
use daily_diary.Pb.{atype_static, atype_pointer, atype_callback}
use daily_diary.Pb.{callback_error}
use daily_diary.Pb.OStream.{OStream}
use daily_diary.Pb.OStream.Emits.{Emits, IsRefused}
use daily_diary.Pb.Scalar.{load}
use daily_diary.Pb.Message.{Action, MessageEncoder, Env, Extension}
use daily_diary.Pb.Message.Fields.{implicit_has, encode_basic_field}
use daily_diary.Pb.Message.Fields.{
  callback_status, encode_callback_field, encode_field, default_extension_encoder, encode_extension,
  encode_extensions,
}
use daily_diary.Pb.Message.Fields.{
  encode_extension_field, encode_visit, encode_visits, encode_visited,
}
use daily_diary.Pb.Message.Format.{MessageValue, UserBytes, basic_bytes}
use daily_diary.Pb.Message.Format.{
  callback_field_bytes, field_bytes, extension_value, extensions_bytes, visit_bytes, visits_bytes,
  visited_bytes,
}
use daily_diary.Pb.Message.Describes.{
  Describes, none-Describes, ok-Describes, if-Describes, if_in-Describes, >>-Describes,
}
use daily_diary.Pb.Message.Refines.Table.{encode_present-Describes}

-- The user's functions write what is said of them.
pub record IsDescribed (env : Env) (user : UserBytes) : Type 0 where
  pub callbacks :
      (f : ℕ) (field : Field) (arg : ℕ)
      → Describes (user.callback_bytes f field arg) (env.encode_callback f field arg)
  pub extensions :
      (x : Extension) (encode : Action)
      → x.encode ≡ some encode
      → Describes (user.extension_bytes x) encode

-- A callback that fails adds its message behind the first one.
module _ (f : Action) (bs : List ℕ) (emits : Emits f bs) where
  callback_status-IsRefused :
      (s : OStream) → IsRefused s (f s) → IsRefused s (callback_status (f s))
  unfolding callback_status
  callback_status-IsRefused s r = record {
    after = record r.after { errmsg = first_error r.after.errmsg callback_error };
    done = r.done;
    returns = ap callback_status r.returns;
    message = ap (λ e. first_error e callback_error) r.message;
    wrote = r.wrote;
    stays = r.stays;
  }

  callback_status-Emits : Emits (λ s. callback_status (f s)) bs
  unfolding callback_status
  callback_status-Emits = record {
    short = emits.short;
    sized = λ s h u. ap callback_status (emits.sized s h u);
    full = λ s b h. ap callback_status (emits.full s b h);
    refused = λ s b h. callback_status-IsRefused s (emits.refused s b h);
  }

module _ (message : MessageValue) (pb_encode : MessageEncoder)
    (inner : (fields : List Field) (src : ℕ)
      → Describes (message fields src) (pb_encode fields src))
    (is_default : Field → ℕ → Option Bool) (env : Env) (user : UserBytes)
    (told : IsDescribed env user) where
  encode_basic_field-Describes :
      (field : Field) (p : ℕ)
      → Describes
          (basic_bytes message is_default env user field p)
          (encode_basic_field pb_encode is_default env field p)
  unfolding basic_bytes encode_basic_field
  encode_basic_field-Describes field p =
      encode_present-Describes message pb_encode inner env field p
        (implicit_has field (is_default field p))

  encode_callback_field-Describes :
      (field : Field) (p : ℕ)
      → Describes
          (callback_field_bytes message is_default env user field p)
          (encode_callback_field pb_encode is_default env field p)
  unfolding callback_field_bytes encode_callback_field
  encode_callback_field-Describes field p =
      if_in-Describes (load 8 p env.mem == 0) (λ c. ok-Describes)
        (λ c bs h short. callback_status-Emits _ bs (told.callbacks _ field (p + 8) bs h short))

  encode_field-Describes :
      (field : Field) (p : ℕ)
      → Describes
          (field_bytes message is_default env user field p)
          (encode_field pb_encode is_default env field p)
  unfolding field_bytes encode_field
  encode_field-Describes field p =
      if-Describes (atype field.type == atype_static || atype field.type == atype_pointer)
        (λ b. encode_basic_field-Describes field p)
        (λ n.
          if-Describes (atype field.type == atype_callback)
            (λ c. encode_callback_field-Describes field p) (λ bad. none-Describes))

  encode_extension-Describes :
      (x : Extension)
      → Describes
          (extension_value message is_default env user x)
          (encode_extension pb_encode is_default env x)
  unfolding extension_value encode_extension
  encode_extension-Describes x = go x.encode refl
    where
      go :
          (encode : Option Action)
          → x.encode ≡ encode
          → Describes
              (elim encode [
                | none ↦
                    if atype x.arg.type == atype_pointer
                    then field_bytes message is_default env user x.arg x.dest_at
                    else field_bytes message is_default env user x.arg x.dest
                | some e ↦ user.extension_bytes x
              ])
              (elim encode [
                | none ↦ default_extension_encoder pb_encode is_default env x
                | some e ↦ e
              ])
      go none h =
          if-Describes (atype x.arg.type == atype_pointer)
            (λ c. encode_field-Describes x.arg x.dest_at) (λ c. encode_field-Describes x.arg x.dest)
      go (some e) h = told.extensions x e h

  encode_extensions-Describes :
      (xs : List Extension)
      → Describes
          (extensions_bytes message is_default env user xs)
          (encode_extensions pb_encode is_default env xs)
  unfolding extensions_bytes encode_extensions
  encode_extensions-Describes [] = ok-Describes
  encode_extensions-Describes (x ∷ xs) =
      >>-Describes _ _ (encode_extension-Describes x) (encode_extensions-Describes xs)

  encode_visit-Describes :
      (field : Field) (p : ℕ)
      → Describes
          (visit_bytes message is_default env user field p)
          (encode_visit pb_encode is_default env field p)
  unfolding visit_bytes encode_visit encode_extension_field
  encode_visit-Describes field p =
      if-Describes (ltype field.type == ltype_extension) (λ e. encode_extensions-Describes _)
        (λ n. encode_field-Describes field p)

  encode_visits-Describes :
      (vs : List (Field × ℕ))
      → Describes
          (visits_bytes message is_default env user vs)
          (encode_visits pb_encode is_default env vs)
  unfolding visits_bytes encode_visits
  encode_visits-Describes [] = ok-Describes
  encode_visits-Describes ((field, p) ∷ vs) =
      >>-Describes _ _ (encode_visit-Describes field p) (encode_visits-Describes vs)

  pub encode_visited-Describes :
      (vs : Option (List (Field × ℕ)))
      → Describes
          (visited_bytes message is_default env user vs)
          (encode_visited pb_encode is_default env vs)
  unfolding visited_bytes encode_visited
  encode_visited-Describes none = none-Describes
  encode_visited-Describes (some vs) = encode_visits-Describes vs
