-- ===== src/Pb/Message/Format.antt =====
-- The bytes of a message in the protocol buffer format, as a function of the memory alone: no
-- stream, no limit, no second pass. It has no bytes where the data is invalid.
use daily_diary.Base.{ℕ, zero, suc, ◌+◌, ◌*◌, ◌^◌, List, [], ◌∷◌, ◌++◌, length, get_or, u64}
use daily_diary.Base.{ltb, leb, ◌==◌, ◌&&◌, ◌||◌, if◌then◌else◌, not, Bool, Option, none, some}
use daily_diary.Pb.{Field, ltype, htype, atype, WireType, wire_code, atype_static, atype_pointer}
use daily_diary.Pb.{atype_callback, htype_required, htype_optional, htype_repeated, htype_oneof}
use daily_diary.Pb.{ltype_extension}
use daily_diary.Pb.Encode.{zigzag, wire_type_of}
use daily_diary.Pb.Encode.Varint.{encoding}
use daily_diary.Pb.Encode.Scalars.{little_endian}
use daily_diary.Pb.Iter.{size_address}
use daily_diary.Pb.Scalar.{Memory, load, is_int_size, load_int, to_signed, to_unsigned}
use daily_diary.Pb.Message.{Env, Extension, load_bytes}
use daily_diary.Pb.Message.Values.{string_size, max_string_size}
use daily_diary.Pb.Message.Absent.{message_visits, pb_check_proto3_default_value}
use daily_diary.Pb.Message.Arrays.{entry_data, last_packable}
use daily_diary.Pb.Message.Fields.{has_size, implicit_has, field_data, pointer_has, has_field}

abbrev pub Bytes : Type 0
Bytes = Option (List ℕ)

infixr 65 ◌+++◌
abbrev pub ◌+++◌ : Bytes → Bytes → Bytes
none +++ y = none
some xs +++ none = none
some xs +++ some ys = some (xs ++ ys)

-- The length as a varint, and the bytes.
abbrev pub delimited : List ℕ → List ℕ
delimited bs = encoding (length bs) ++ bs

abbrev pub delimited_bytes : Bytes → Bytes
delimited_bytes none = none
delimited_bytes (some bs) = some (delimited bs)

-- A tag is a number of 32 bits.
abbrev pub tag_bytes : Option WireType → ℕ → Bytes
tag_bytes none n = none
tag_bytes (some w) n = if ltb n (2 ^ 32) then some (encoding (8 * n + wire_code w)) else none

abbrev pub Value : Type 0
Value = Field → ℕ → Bytes

abbrev pub MessageValue : Type 0
MessageValue = List Field → ℕ → Bytes

abbrev pub int_value : (ℕ → ℕ → ℕ) → (ℕ → ℕ) → Memory → Value
int_value convert code mem field p =
    if is_int_size field.data_size
    then some (encoding (code (load_int convert field p mem)))
    else none

abbrev pub fixed_value : ℕ → Memory → Value
fixed_value size mem field p = some (little_endian size (load size p mem))

abbrev pub bytes_value : Memory → Value
bytes_value mem field p =
    if p == 0
    then some (delimited [])
    else if atype field.type == atype_static && ltb field.data_size (load 4 p mem + 4)
    then none
    else some (delimited (load_bytes (load 4 p mem) (p + 4) mem))

abbrev pub string_value : Memory → Value
string_value mem field p =
    if p == 0
    then some (delimited [])
    else some (delimited (load_bytes (string_size (max_string_size field) p mem) p mem))

abbrev pub submessage_value : MessageValue → Env → Value
submessage_value message env field p =
    if field.ptr == 0 then none else delimited_bytes (message (env.fields_at field.ptr) p)

abbrev pub fixed_length_value : Memory → Value
fixed_length_value mem field p = some (delimited (load_bytes field.data_size p mem))

abbrev pub no_value : Value
no_value field p = none

-- The values by type.
abbrev pub values : MessageValue → Env → List Value
values message env =
    int_value to_signed (λ v. v) env.mem
    ∷ int_value to_unsigned (λ v. v) env.mem
    ∷ int_value to_signed zigzag env.mem
    ∷ fixed_value 4 env.mem
    ∷ fixed_value 8 env.mem
    ∷ bytes_value env.mem
    ∷ string_value env.mem
    ∷ submessage_value message env
    ∷ no_value
    ∷ fixed_length_value env.mem
    ∷ []

unfoldable pub value_of : MessageValue → Env → Field → Value
value_of message env field = get_or (values message env) (ltype field.type) no_value

unfoldable pub entry_bytes : Value → Field → ℕ → Bytes
entry_bytes value field p = tag_bytes (wire_type_of (ltype field.type)) field.tag +++ value field p

-- The values of an array, one behind the other.
unfoldable pub items_bytes : Value → Field → ℕ → ℕ → Bytes
items_bytes value field zero p = some []
items_bytes value field (suc count) p =
    value field p +++ items_bytes value field count (u64 (p + field.data_size))

unfoldable pub entries_bytes : Value → Env → Field → ℕ → ℕ → Bytes
entries_bytes value env field zero p = some []
entries_bytes value env field (suc count) p =
    tag_bytes (wire_type_of (ltype field.type)) field.tag
    +++ value field (entry_data env field p)
    +++ entries_bytes value env field count (u64 (p + field.data_size))

-- A packed array is one entry of all values; other arrays have an entry for each value.
unfoldable pub array_bytes : Value → Env → Field → ℕ → ℕ → Bytes
array_bytes value env field p count =
    if count == 0
    then some []
    else if not (atype field.type == atype_pointer) && ltb field.array_size count
    then none
    else if leb (ltype field.type) last_packable
    then tag_bytes (some WireType.string) field.tag
      +++ delimited_bytes (items_bytes value field count p)
    else entries_bytes value env field count p

-- The bytes of a field that is there (`has`), by its rule.
unfoldable pub rule_bytes : Value → Env → Field → ℕ → Bool → Bytes
rule_bytes value env field p has =
    let pdata = field_data env field p in
    let count = load 4 (size_address p field) env.mem in
    if htype field.type == htype_required
    then (if pdata == 0 then none else entry_bytes value field pdata)
    else if htype field.type == htype_optional
    then (if has_field env field p has then entry_bytes value field pdata else some [])
    else if htype field.type == htype_repeated
    then array_bytes value env field pdata (if has_size field then count else field.array_size)
    else if htype field.type == htype_oneof
    then (if has_size field
        then (if count == field.tag then entry_bytes value field pdata else some [])
        else none)
    else none

unfoldable pub present_bytes : Value → Env → Field → ℕ → Option Bool → Bytes
present_bytes value env field p none = none
present_bytes value env field p (some has) =
    rule_bytes value env field p (pointer_has env field p has)

-- What the user's functions write: the callback at an address for a field and an argument, and the
-- encoder of an extension.
pub record UserBytes : Type 0 where
  pub callback_bytes : ℕ → Field → ℕ → Bytes
  pub extension_bytes : Extension → Bytes

module _ (message : MessageValue) (is_default : Field → ℕ → Option Bool) (env : Env)
    (user : UserBytes) where
  unfoldable pub basic_bytes : Value
  basic_bytes field p =
      present_bytes (value_of message env field) env field p
        (implicit_has field (is_default field p))

  unfoldable pub callback_field_bytes : Value
  callback_field_bytes field p =
      if load 8 p env.mem == 0
      then some []
      else user.callback_bytes (load 8 p env.mem) field (p + 8)

  unfoldable pub field_bytes : Value
  field_bytes field p =
      if atype field.type == atype_static || atype field.type == atype_pointer
      then basic_bytes field p
      else if atype field.type == atype_callback
      then callback_field_bytes field p
      else none

  unfoldable pub extension_value : Extension → Bytes
  extension_value x = elim x.encode [
    | none ↦
        if atype x.arg.type == atype_pointer
        then field_bytes x.arg x.dest_at
        else field_bytes x.arg x.dest
    | some encode ↦ user.extension_bytes x
  ]

  unfoldable pub extensions_bytes : List Extension → Bytes
  extensions_bytes [] = some []
  extensions_bytes (x ∷ rest) = extension_value x +++ extensions_bytes rest

  unfoldable pub visit_bytes : Value
  visit_bytes field p =
      if ltype field.type == ltype_extension
      then extensions_bytes (env.extensions_at (load 8 p env.mem))
      else field_bytes field p

  unfoldable pub visits_bytes : List (Field × ℕ) → Bytes
  visits_bytes [] = some []
  visits_bytes ((field, p) ∷ rest) = visit_bytes field p +++ visits_bytes rest

  unfoldable pub visited_bytes : Option (List (Field × ℕ)) → Bytes
  visited_bytes none = none
  visited_bytes (some vs) = visits_bytes vs

-- The fields in the order of the descriptor; messages are nested `depth` deep at most.
unfoldable pub message_bytes : ℕ → Env → UserBytes → MessageValue
message_bytes zero env user fields src = none
message_bytes (suc depth) env user fields src =
    visited_bytes (message_bytes depth env user) (pb_check_proto3_default_value (suc depth) env) env
      user (message_visits fields src)
