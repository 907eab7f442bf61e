-- ===== src/Pb/Decoder/Safe/Depth.antt =====
-- The messages that a stack has room for; `pb_message_set_to_defaults` and `pb_release` return on
-- them.
use mathlib.Core.Option
use native.Mathlib.Decide.{dec_le}
use daily_diary.Pb.Iter.Find.{inner_next}
use daily_diary.Pb.Iter.Index.{next_goes_on, next_ends}
use daily_diary.Base.{◌+◌, sym, arith}
use daily_diary.Pb.{atype, atype_pointer}
use daily_diary.Base.{ℕ, zero, suc, ◌^◌, ◌≤◌, ◌<◌, ◌≡◌, refl}
use daily_diary.Base.{
  Bool, true, false, not, ◌==◌, ◌&&◌, ◌||◌, ltb, Option, none, some, List, [], ◌∷◌,
}
use daily_diary.Base.{length, All, if◌then◌else◌}
use daily_diary.Pb.{Field, ltype, ltype_submessage}
use daily_diary.Pb.IStream.{IStream}
use daily_diary.Pb.Decode.Bounds.{IsInBounds}
use daily_diary.Pb.Iter.{Iter, field_at, pb_field_iter_begin}
use daily_diary.Pb.Iter.Index.{IsIndexed, next-IsIndexed, required_before}
use daily_diary.Pb.Scalar.{Memory}
use daily_diary.Pb.Blobs.{Outcome}
use daily_diary.Pb.Message.{Env, Extension}
use daily_diary.Pb.Defaults.{
  Change, and_change, each_iterator, iterators, message_iterators, iter_from_extension,
}
use daily_diary.Pb.Defaults.{extension_defaults, iterator_defaults}
use daily_diary.Pb.Decoder.{DecodeEnv}
use daily_diary.Pb.Decoder.Fields.Ends.{is_extension}
use daily_diary.Pb.Decoder.Release.{release_items, release_extensions}
use daily_diary.Pb.Decoder.Release.{release_iterators}
use daily_diary.Pb.Decoder.Safe.{Safe, Returns}
use daily_diary.Pb.Decoder.Safe.Callbacks.{IsReading}

abbrev pub is_message : Field → Bool
is_message field = ltype field.type == ltype_submessage

-- A type that PB_DECODERS has a function for, and data of some size.
abbrev pub is_decodable : Field → Bool
is_decodable field =
    (ltb (ltype field.type) 8 || ltype field.type == 9) && not (field.data_size == 0)

abbrev pub is_pointer : Field → Bool
is_pointer field = atype field.type == atype_pointer

-- A message has a field, none has the tag 0 or its storage on the heap, and each is an extension
-- field or one to be decoded.
pub record HasShape (fields : List Field) : Type 0 where
  pub word : length fields < 2 ^ 32
  pub some_field : 0 < length fields
  pub tagged : (j : ℕ) → j < length fields → 0 < (field_at fields j).tag
  pub decodable :
      (j : ℕ)
      → j < length fields
      → is_extension (field_at fields j) || is_decodable (field_at fields j) ≡ true
  pub no_pointer : (j : ℕ) → j < length fields → is_pointer (field_at fields j) ≡ false

-- The descriptors inside a field, none for a field that is no message.
abbrev pub IsInside : Env → (List Field → Type 0) → Field → Type 0
IsInside env P field = (is_message field ≡ true) → P (env.fields_at field.ptr)

-- Messages nested at most `n` deep.
abbrev pub IsMessage : ℕ → Env → List Field → Type 0
IsMessage zero env fields = 1 ≤ 0
IsMessage (suc n) env fields =
    HasShape fields
    × ((j : ℕ) → j < length fields → IsInside env (IsMessage n env) (field_at fields j))

-- An extension whose own decoder stays inside of the array, and whose field is no message, no
-- extension and not on the heap.
pub record IsPlainExtension (host : DecodeEnv) (x : Extension) : Type 0 where
  pub custom :
      (decode : ℕ → ℕ → Memory → IStream → Outcome)
      → host.decode_extension x ≡ some decode
      → (tag wire_type : ℕ) (mem : Memory) (s : IStream) → IsInBounds s
      → Safe s (decode tag wire_type mem s)
  pub tagged : 0 < x.arg.tag
  pub plain : is_extension x.arg ≡ false
  pub no_message : is_message x.arg ≡ false
  pub decodable : is_decodable x.arg ≡ true
  pub no_pointer : is_pointer x.arg ≡ false

-- What the user brings: callbacks that read what they are given, and extensions.
pub record IsHost (host : DecodeEnv) : Type 0 where
  pub reading : (f : ℕ) (field : Field) (arg : ℕ) → IsReading (host.decode_callback f field arg)
  pub extensions : (p : ℕ) → All (IsPlainExtension host) (host.env.extensions_at p)

pub first-IsIndexed :
    (fields : List Field) (dest : ℕ)
    → HasShape fields
    → IsIndexed fields (pb_field_iter_begin fields dest).0
unfolding pb_field_iter_begin required_before
first-IsIndexed fields dest h = record {
  same = refl;
  is_iter = record { on_field = h.some_field; tagged = h.tagged };
  index = refl;
}

-- The loop over the iterator ends, and is on a field of the message in each round.
abbrev pub Visits : List Field → Option (List Iter) → Type 0
Visits fields none = ⊥
Visits fields (some its) = All (IsIndexed fields) its

in_front-Visits :
    (fields : List Field) (it : Iter) (its : Option (List Iter))
    → IsIndexed fields it
    → Visits fields its
    → Visits fields (Option.map (λ rest. it ∷ rest) its)
in_front-Visits fields it none h hs = hs
in_front-Visits fields it (some its) h hs = (h, hs)

iterators-Visits :
    (fields : List Field)
    → length fields < 2 ^ 32
    → (rounds : ℕ) (it : Iter) → IsIndexed fields it
    → it.pos + rounds ≡ length fields
    → Visits fields (iterators rounds it)
unfolding iterators
iterators-Visits fields word zero it h e =
    let on : it.pos < length fields = rw (sym h.same) h.is_iter.on_field in absurd (omega arith)
iterators-Visits fields word (suc rounds) it h e =
    elim (dec_le (suc (suc it.pos)) (length it.start)) [
      | yes more ↦
          let moved = (inner_next it h.is_iter more).1 in
          rw (next_goes_on it h.is_iter more, iterators, Visits)
            (in_front-Visits fields it _ h (
              iterators-Visits fields word rounds _ (next-IsIndexed fields word it h)
                (omega (arith, moved))))
      | no last ↦
          let on = h.is_iter.on_field in
          rw (next_ends it h.is_iter (omega arith), iterators, Visits) (h, tt)
    ]

pub message_iterators-Visits :
    (fields : List Field) (dest : ℕ)
    → HasShape fields
    → Visits fields (message_iterators fields dest)
unfolding message_iterators pb_field_iter_begin
message_iterators-Visits fields dest h =
    begun ((pb_field_iter_begin fields dest).1) (
      iterators-Visits fields h.word (length fields) _ (first-IsIndexed fields dest h)
        (omega arith))
  where
    begun :
        (c : Bool)
        → Visits fields (iterators (length fields) (pb_field_iter_begin fields dest).0)
        → Visits fields
            (if c then iterators (length fields) (pb_field_iter_begin fields dest).0 else some [])
    begun true p = p
    begun false p = tt

pub and_change-Returns :
    (r : Option Memory) (k : Change)
    → Returns r
    → ((mem : Memory) → Returns (k mem))
    → Returns (and_change r k)
unfolding and_change
and_change-Returns none k h each = absurd h
and_change-Returns (some mem) k h each = each mem

-- Calls that return on every field of a message.
pub each-Returns :
    (fields : List Field) (calls : List Iter → Change) (its : Option (List Iter)) (mem : Memory)
    → Visits fields its
    → ((its : List Iter) → All (IsIndexed fields) its → Returns (calls its mem))
    → Returns (each_iterator calls its mem)
unfolding each_iterator
each-Returns fields calls none mem h each = absurd h
each-Returns fields calls (some its) mem h each = each its h

-- The calls for each of a list.
module _ (call : Iter → Change) where
  pub defaults-Returns :
      (its : List Iter) (mem : Memory)
      → All (λ it. (m : Memory) → Returns (call it m)) its
      → Returns (iterator_defaults call its mem)
  unfolding iterator_defaults
  defaults-Returns [] mem h = tt
  defaults-Returns (it ∷ its) mem (h, hs) =
      and_change-Returns _ _ (h mem) (λ m. defaults-Returns its m hs)

  pub releases-Returns :
      (free : ℕ → Memory → Memory) (its : List Iter) (mem : Memory)
      → All (λ it. (m : Memory) → Returns (call it m)) its
      → Returns (release_iterators free call its mem)
  unfolding release_iterators
  releases-Returns free [] mem h = tt
  releases-Returns free (it ∷ its) mem (h, hs) =
      and_change-Returns _ _ (h mem) (λ m. releases-Returns free its m hs)

  pub extensions-Returns :
      (xs : List Extension) (mem : Memory)
      → All (λ x. (m : Memory) → Returns (call (iter_from_extension x) m)) xs
      → Returns (extension_defaults call xs mem)
  unfolding extension_defaults
  extensions-Returns [] mem h = tt
  extensions-Returns (x ∷ xs) mem (h, hs) =
      and_change-Returns _ _ (h _) (λ m. extensions-Returns xs m hs)

  pub release_extensions-Returns :
      (free : ℕ → Memory → Memory) (xs : List Extension) (mem : Memory)
      → All (λ x. (m : Memory) → Returns (call (iter_from_extension x) m)) xs
      → Returns (release_extensions free call xs mem)
  unfolding release_extensions
  release_extensions-Returns free [] mem h = tt
  release_extensions-Returns free (x ∷ xs) mem (h, hs) =
      and_change-Returns _ _ (h mem) (λ m. release_extensions-Returns free xs m hs)

pub items-Returns :
    (count : ℕ) (release : ℕ → Change) (size item : ℕ) (mem : Memory)
    → ((a : ℕ) (m : Memory) → Returns (release a m))
    → Returns (release_items count release size item mem)
unfolding release_items
items-Returns zero release size item mem h = tt
items-Returns (suc count) release size item mem h =
    and_change-Returns _ _ (h item mem) (λ m. items-Returns count release size _ m h)

pub if-Returns :
    (c : Bool) (x y : Option Memory)
    → (c ≡ true → Returns x)
    → (c ≡ false → Returns y)
    → Returns (if c then x else y)
if-Returns true x y h k = h refl
if-Returns false x y h k = k refl
