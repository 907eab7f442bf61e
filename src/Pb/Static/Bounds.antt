-- ===== src/Pb/Static/Bounds.antt =====
-- A field in the message is decoded into its own bytes, and its count or presence.
use daily_diary.Base.{ℕ, zero, suc, ◌+◌, ◌*◌, ◌^◌, ◌≤◌, ◌<◌, ◌≡◌, refl, ◌∙◌, arith}
use daily_diary.Base.{u32, Bool, true, false, leb, ltb, ◌==◌, ◌&&◌}
use daily_diary.Pb.{
  Field, ltype, htype, htype_required, htype_optional, htype_repeated, htype_oneof,
}
use daily_diary.Pb.{Res, ok, fail, fault}
use native.Mathlib.Nat.{mul-le-mul_left}
use daily_diary.Pb.IStream.{IStream}
use daily_diary.Pb.Decode.{pb_make_string_substream}
use daily_diary.Pb.Iter.{Iter, field_at}
use daily_diary.Pb.Scalar.{Memory, load, store}
use daily_diary.Pb.Scalar.Store.{IsOutside, store-outside}
use daily_diary.Pb.Blobs.{Outcome, and_then}
use daily_diary.Pb.Blobs.Bounds.{part-IsOutside, if-outside}
use daily_diary.Pb.Message.Arrays.{last_packable}
use daily_diary.Pb.Static.{
  ItemDecoder, item_address, count_up, packed_loop, finish_packed, decode_packed, decode_entry,
  enter_oneof, after_change, set_present, decode_by_htype,
}
use daily_diary.Pb.Static.{decode_static_field}
use daily_diary.Pb.Defaults.{Change}
use daily_diary.Pb.{ltype_submessage}
use daily_diary.Base.{Option, none, some, if◌then◌else◌}

-- `change` leaves what is outside of `size` bytes from the address it is given.
abbrev pub IsConfined : ℕ → (ℕ → Memory → Memory) → Type 0
IsConfined size change =
    (a : ℕ) (mem : Memory) (x : ℕ) → IsOutside a size x → change a mem x ≡ mem x

-- A change that returns leaves the byte at `x`.
abbrev pub Keeps : Memory → ℕ → Option Memory → Type 0
Keeps mem x none = Unit {0}
Keeps mem x (some mem') = mem' x ≡ mem x

-- The same of a change of the memory that need not return.
abbrev pub Confines : ℕ → (ℕ → Change) → Type 0
Confines size change =
    (a : ℕ) (mem : Memory) (x : ℕ) → IsOutside a size x → Keeps mem x (change a mem)

pub Keeps-from :
    (mem' mem : Memory) (x : ℕ)
    → mem' x ≡ mem x
    → (r : Option Memory) → Keeps mem' x r
    → Keeps mem x r
Keeps-from mem' mem x e none k = tt
Keeps-from mem' mem x e (some m) k = k ∙ e

pub if-Keeps :
    (c : Bool) (a b : Option Memory) (mem : Memory) (x : ℕ)
    → Keeps mem x a
    → Keeps mem x b
    → Keeps mem x (if c then a else b)
if-Keeps true a b mem x h k = h
if-Keeps false a b mem x h k = k

after_change-outside :
    (r : Option Memory) (mem : Memory) (x : ℕ) (k : Memory → Outcome)
    → Keeps mem x r
    → ((mem' : Memory) → mem' x ≡ mem x → (k mem').1 x ≡ mem x)
    → (after_change r mem k).1 x ≡ mem x
unfolding after_change
after_change-outside none mem x k h each = refl
after_change-outside (some mem') mem x k h each = each mem' h

-- The storage of a field: `n` bytes at `pdata` hold every entry, below 2^32 and without wrapping.
pub record HasRoom (field : Field) (pdata n : ℕ) : Type 0 where
  pub one : field.data_size ≤ n
  pub all : field.data_size * field.array_size ≤ n
  pub word : n < 2 ^ 32
  pub address : pdata + n < 2 ^ 64

and_then-outside :
    (r : Outcome) (k : Memory → IStream → Outcome) (mem : Memory) (x : ℕ)
    → r.1 x ≡ mem x
    → ((mem' : Memory) (s : IStream) → mem' x ≡ mem x → (k mem' s).1 x ≡ mem x)
    → (and_then r k).1 x ≡ mem x
unfolding and_then
and_then-outside (ok _ s, mem') k mem x h each = each mem' s h
and_then-outside (fail s, mem') k mem x h each = h
and_then-outside (fault, mem') k mem x h each = h

finish_packed-outside :
    (s : IStream) (r : Outcome) (mem : Memory) (x : ℕ)
    → r.1 x ≡ mem x
    → (finish_packed s r).1 x ≡ mem x
unfolding finish_packed
finish_packed-outside s (ok _ sub, mem') mem x h =
    if-outside (sub.bytes_left == 0) _ _ mem x (λ c. h) (λ c. h)
finish_packed-outside s (fail sub, mem') mem x h =
    if-outside (sub.bytes_left == 0) _ _ mem x (λ c. h) (λ c. h)
finish_packed-outside s (fault, mem') mem x h = h

count_up-outside :
    (psize : ℕ) (mem : Memory) (x : ℕ) → IsOutside psize 4 x → count_up psize mem x ≡ mem x
count_up-outside psize mem x o = store-outside 4 (u32 (load 4 psize mem + 1)) psize mem x o

elim-outside :
    (c : Bool) (a b : Outcome) (mem : Memory) (x : ℕ)
    → a.1 x ≡ mem x
    → (c ≡ true → b.1 x ≡ mem x)
    → (elim c as (λ c. Outcome) [ false ↦ a | true ↦ b ]).1 x ≡ mem x
elim-outside false a b mem x h k = h
elim-outside true a b mem x h k = k refl

last_entry : (d i m : ℕ) → i < m → d * i + d ≤ d * m
last_entry d i m h = omega (arith, mul-le-mul_left {m = suc i} {n = m} d h)

pub item-IsOutside :
    (field : Field) (pdata n : ℕ)
    → HasRoom field pdata n
    → (x : ℕ) → IsOutside pdata n x
    → (i : ℕ) → i < field.array_size
    → IsOutside (item_address field pdata i) field.data_size x
item-IsOutside field pdata n room x o i h =
    let last = last_entry field.data_size i field.array_size h in
    let all = room.all in
    let word = room.word in
    let address = room.address in
    part-IsOutside pdata n (item_address field pdata i) field.data_size x (omega arith)
      (omega arith) o

module _ (field : Field) (pdata psize n : ℕ) (room : HasRoom field pdata n) (x : ℕ)
    (o : IsOutside pdata n x) (os : IsOutside psize 4 x) where
  module _ (item : ItemDecoder)
      (confined : (s : IStream) → IsConfined field.data_size (λ a mem. (item a mem s).1)) where
    packed_loop-outside :
        (rounds : ℕ) (mem : Memory) (sub : IStream)
        → (packed_loop rounds item field pdata psize mem sub).1 x ≡ mem x
    unfolding packed_loop
    packed_loop-outside zero mem sub = refl
    packed_loop-outside (suc rounds) mem sub =
        elim-outside (ltb 0 sub.bytes_left && ltb (load 4 psize mem) field.array_size) _ _ mem x
          refl
          (λ c.
            and_then-outside _ _ mem x
              (confined sub (item_address field pdata (load 4 psize mem)) mem x
                (item-IsOutside field pdata n room x o (load 4 psize mem) (ground arith)))
              (λ mem' sub' same.
                packed_loop-outside rounds (count_up psize mem') sub'
                ∙ count_up-outside psize mem' x os
                ∙ same))

    decode_packed-outside :
        (r : Res IStream IStream) (mem : Memory)
        → (decode_packed r item field pdata psize mem).1 x ≡ mem x
    unfolding decode_packed
    decode_packed-outside (ok sub s) mem =
        finish_packed-outside s
          (packed_loop (suc (field.array_size + sub.bytes_left)) item field pdata psize mem sub) mem
          x (packed_loop-outside (suc (field.array_size + sub.bytes_left)) mem sub)
    decode_packed-outside (fail s) mem = refl
    decode_packed-outside fault mem = refl

    decode_entry-outside :
        (mem : Memory) (s : IStream) → (decode_entry item field pdata psize mem s).1 x ≡ mem x
    unfolding decode_entry
    decode_entry-outside mem s =
        if-outside (leb field.array_size (load 4 psize mem)) _ _ mem x
          (λ c. count_up-outside psize mem x os)
          (λ c.
            confined s (item_address field pdata (load 4 psize mem)) (count_up psize mem) x
              (item-IsOutside field pdata n room x o (load 4 psize mem) (ground arith))
            ∙ count_up-outside psize mem x os)

    whole : IsOutside pdata field.data_size x
    whole =
        let one = room.one in
        part-IsOutside pdata n pdata field.data_size x (omega arith) (omega arith) o

    set_present-outside : (mem : Memory) → set_present pdata psize mem x ≡ mem x
    set_present-outside mem = ground (
      arith,
      store-outside 1 1 psize mem x
          (part-IsOutside psize 4 psize 1 x (omega arith) (omega arith) os),
    )

    module _ (defaults : ℕ → Change) (defaults_confined : Confines field.data_size defaults) where
      enter_oneof-Keeps : (mem : Memory) → Keeps mem x (enter_oneof defaults field pdata psize mem)
      unfolding enter_oneof
      enter_oneof-Keeps mem =
          let tagged = store-outside 4 field.tag psize mem x os in
          let zeroed =
            store-outside field.data_size 0 pdata (store 4 field.tag psize mem) x whole in
          if-Keeps (ltype field.type == ltype_submessage) _ _ mem x
            (Keeps-from (store field.data_size 0 pdata (store 4 field.tag psize mem)) mem x
              (zeroed ∙ tagged)
              (defaults pdata (store field.data_size 0 pdata (store 4 field.tag psize mem)))
              (defaults_confined pdata (store field.data_size 0 pdata (store 4 field.tag psize mem))
                x whole))
            tagged

      decode_by_htype-outside :
          (wire_type : ℕ) (mem : Memory) (s : IStream)
          → (decode_by_htype item defaults wire_type field pdata psize mem s).1 x ≡ mem x
      unfolding decode_by_htype
      decode_by_htype-outside wire_type mem s =
          if-outside (htype field.type == htype_required) _ _ mem x
            (λ c. confined s pdata mem x whole)
            (λ c.
              if-outside (htype field.type == htype_optional) _ _ mem x
                (λ c.
                  confined s pdata (set_present pdata psize mem) x whole ∙ set_present-outside mem)
                (λ c.
                  if-outside (htype field.type == htype_repeated) _ _ mem x
                    (λ c.
                      if-outside (wire_type == 2 && leb (ltype field.type) last_packable) _ _ mem x
                        (λ c. decode_packed-outside (pb_make_string_substream s) mem)
                        (λ c. decode_entry-outside mem s))
                    (λ c.
                      if-outside (htype field.type == htype_oneof) _ _ mem x
                        (λ c.
                          after_change-outside (enter_oneof defaults field pdata psize mem) mem x _
                            (enter_oneof-Keeps mem)
                            (λ mem' same. confined s pdata mem' x whole ∙ same))
                        (λ c. refl))))

-- For a field that has its storage in the message, `n` bytes at `pData` with room for every
-- entry, fewer than 2 ^ 32 and without wrapping, where the decoder of its type and the defaults
-- of a message change only the `data_size` bytes they are given, `decode_static_field` changes
-- no byte outside of these `n` bytes and of the four bytes at `pSize`, whatever the stream holds
-- and however the call ends.
pub decode_static_field-outside :
    (func : Field → ItemDecoder) (defaults : ℕ → ℕ → Change) (wire_type n : ℕ) (it : Iter)
    (mem : Memory) (s : IStream) (x : ℕ)
    → HasRoom (field_at it.start it.pos) it.pdata n
    → ((s : IStream)
        → IsConfined
            (field_at it.start it.pos).data_size
            (λ a m. (func (field_at it.start it.pos) a m s).1))
    → Confines (field_at it.start it.pos).data_size (defaults (field_at it.start it.pos).ptr)
    → IsOutside it.pdata n x
    → IsOutside it.psize 4 x
    → (decode_static_field func defaults wire_type it mem s).1 x ≡ mem x
unfolding decode_static_field
decode_static_field-outside func defaults wire_type n it mem s x room confined defaults_confined o
      os =
    decode_by_htype-outside (field_at it.start it.pos) it.pdata it.psize n room x o os
      (func (field_at it.start it.pos)) confined (defaults (field_at it.start it.pos).ptr)
      defaults_confined wire_type mem s
