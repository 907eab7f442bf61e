-- ===== src/Pb/Message/Fields.antt =====
-- `encode_basic_field`, `encode_callback_field`, `encode_field` and the extensions of pb_encode.c:
-- one field of a message.
use daily_diary.Base.{ℕ, ◌+◌, List, [], ◌∷◌, ◌==◌, ◌&&◌, ◌||◌, if◌then◌else◌}
use daily_diary.Base.{Bool, true, not, Option, none, some}
use daily_diary.Pb.{Field, ltype, htype, atype, Res, ok, fail, fault, ◌>>◌}
use daily_diary.Pb.{atype_static, atype_pointer, atype_callback, htype_required, htype_optional}
use daily_diary.Pb.{htype_repeated, htype_oneof, ltype_extension}
use daily_diary.Pb.{missing_required_field, invalid_field_type, callback_error}
use daily_diary.Pb.OStream.{OStream, return_error}
use daily_diary.Pb.Iter.{size_address}
use daily_diary.Pb.Scalar.{load}
use daily_diary.Pb.Message.{Action, Encoder, MessageEncoder, Env, Extension}
use daily_diary.Pb.Message.Values.{encoder_of, call}
use daily_diary.Pb.Message.Arrays.{encode_entry, encode_array}

-- Whether `pSize` points into the message, and not to `implicit_has`.
abbrev pub has_size : Field → Bool
has_size field = not (field.size_offset == 0)

-- `implicit_has`, from the result of `pb_check_proto3_default_value`, of `none` where the stack is too small for the test.
abbrev pub implicit_has : Field → Option Bool → Option Bool
implicit_has field none =
    if not (has_size field) && htype field.type == htype_optional then none else some true
implicit_has field (some is_default) =
    if not (has_size field) && htype field.type == htype_optional
    then some (not is_default)
    else some true

-- `pData`, behind the branch for pointers.
abbrev pub field_data : Env → Field → ℕ → ℕ
field_data env field p = if atype field.type == atype_pointer then load 8 p env.mem else p

-- `implicit_has` of `has`, behind the branch for pointers.
abbrev pub pointer_has : Env → Field → ℕ → Bool → Bool
pointer_has env field p has =
    if atype field.type == atype_pointer then not (load 8 p env.mem == 0) else has

-- `*(const bool*)pSize`.
abbrev pub has_field : Env → Field → ℕ → Bool → Bool
has_field env field p has =
    if has_size field then not (load 1 (size_address p field) env.mem == 0) else has

-- The `switch`. A oneof whose `pSize` is the address of `implicit_has` reads behind a bool.
unfoldable pub encode_by_htype : (ℕ → Action) → Env → Field → ℕ → Bool → Action
encode_by_htype func env field p has =
    let pdata = field_data env field p in
    let count = load 4 (size_address p field) env.mem in
    if htype field.type == htype_required
    then (if pdata == 0 then return_error missing_required_field else encode_entry func field pdata)
    else if htype field.type == htype_optional
    then (if has_field env field p has then encode_entry func field pdata else ok tt)
    else if htype field.type == htype_repeated
    then encode_array func env field pdata (if has_size field then count else field.array_size)
    else if htype field.type == htype_oneof
    then (if has_size field
        then (if count == field.tag then encode_entry func field pdata else ok tt)
        else λ s. fault)
    else return_error invalid_field_type

unfoldable pub encode_present : (ℕ → Action) → Env → Field → ℕ → Option Bool → Action
unfolding encode_by_htype
encode_present func env field p none = λ s. fault
encode_present func env field p (some has) =
    encode_by_htype func env field p (pointer_has env field p has)

-- Behind the call of the user's function, with its result.
unfoldable pub callback_status : Res OStream (Unit {0}) → Res OStream (Unit {0})
callback_status (ok u s) = ok u s
callback_status (fail s) = return_error callback_error s
callback_status fault = fault

module _ (pb_encode : MessageEncoder) (is_default : Field → ℕ → Option Bool) (env : Env) where
  unfoldable pub encode_basic_field : Encoder
  unfolding encode_present
  encode_basic_field field p =
      encode_present (call (encoder_of pb_encode env field) field) env field p
        (implicit_has field (is_default field p))

  -- A pb_callback_t is the pointer to the function and then `arg`.
  unfoldable pub encode_callback_field : Encoder
  unfolding callback_status
  encode_callback_field field p s =
      if load 8 p env.mem == 0
      then ok tt s
      else callback_status (env.encode_callback (load 8 p env.mem) field (p + 8) s)

  unfoldable pub encode_field : Encoder
  unfolding encode_basic_field encode_callback_field
  encode_field field p =
      if atype field.type == atype_static || atype field.type == atype_pointer
      then encode_basic_field field p
      else if atype field.type == atype_callback
      then encode_callback_field field p
      else return_error invalid_field_type

  unfoldable pub default_extension_encoder : Extension → Action
  unfolding encode_field
  default_extension_encoder extension =
      if atype extension.arg.type == atype_pointer
      then encode_field extension.arg extension.dest_at
      else encode_field extension.arg extension.dest

  unfoldable pub encode_extension : Extension → Action
  unfolding default_extension_encoder
  encode_extension extension = elim extension.encode [
    | none ↦ default_extension_encoder extension
    | some encode ↦ encode
  ]

  -- `while (extension) { … extension = extension->next; }`.
  unfoldable pub encode_extensions : List Extension → Action
  unfolding encode_extension
  encode_extensions [] = ok tt
  encode_extensions (extension ∷ rest) = encode_extension extension >> encode_extensions rest

  unfoldable pub encode_extension_field : Encoder
  unfolding encode_extensions
  encode_extension_field field p = encode_extensions (env.extensions_at (load 8 p env.mem))

  -- The body of the loop of `pb_encode`.
  unfoldable pub encode_visit : Encoder
  unfolding encode_extension_field
  encode_visit field p =
      if ltype field.type == ltype_extension
      then encode_extension_field field p
      else encode_field field p

  unfoldable pub encode_visits : List (Field × ℕ) → Action
  unfolding encode_visit
  encode_visits [] = ok tt
  encode_visits ((field, p) ∷ rest) = encode_visit field p >> encode_visits rest

  -- A `fault` where the loop does not end.
  unfoldable pub encode_visited : Option (List (Field × ℕ)) → Action
  unfolding encode_visits
  encode_visited none = λ s. fault
  encode_visited (some vs) = encode_visits vs
