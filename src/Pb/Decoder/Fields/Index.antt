-- ===== src/Pb/Decoder/Fields/Index.antt =====
-- What `decode_field` and the search for extensions leave of the iterator.
use daily_diary.Base.{ℕ, zero, suc, ◌^◌, ◌<◌, ◌==◌, Bool, true, false, Option, none, some}
use daily_diary.Base.{List, length, ◌||◌, if◌then◌else◌}
use daily_diary.Pb.{Field, ltype, htype, htype_oneof, ltype_extension, ok, fail, fault}
use daily_diary.Pb.IStream.{IStream}
use daily_diary.Pb.Iter.{Iter, field_at, pb_field_iter_next}
use daily_diary.Pb.Iter.Index.{IsIndexed, LeavesIndexed, next-IsIndexed, find-LeavesIndexed}
use daily_diary.Pb.Scalar.{Memory, load}
use daily_diary.Pb.Blobs.{Outcome}
use daily_diary.Pb.Defaults.{Change}
use daily_diary.Pb.Static.{ItemDecoder}
use daily_diary.Pb.Decoder.{DecodeEnv, Result, and_with}
use daily_diary.Pb.Decoder.Fields.{released, restored, release_old, pb_release_union_field}
use daily_diary.Pb.Decoder.Fields.{with_iter, decode_field}
use daily_diary.Pb.Decoder.Fields.{extension_field_loop, find_extension_field}

-- A value that is stored has the property.
abbrev pub Yields : {A : Type 0} → (A → Type 0) → Result A → Type 0
Yields P (ok a s, mem) = P a
Yields P (fail s, mem) = Unit {0}
Yields P (fault, mem) = Unit {0}

pub and_with-Yields :
    {A B : Type 0} (P : A → Type 0) (Q : B → Type 0) (r : Result A)
    (k : A → Memory → IStream → Result B)
    → Yields P r
    → ((a : A) (mem : Memory) (s : IStream) → P a → Yields Q (k a mem s))
    → Yields Q (and_with r k)
unfolding and_with
and_with-Yields P Q (ok a s, mem) k p each = each a mem s p
and_with-Yields P Q (fail s, mem) k p each = tt
and_with-Yields P Q (fault, mem) k p each = tt

pub if-Yields :
    {A : Type 0} (P : A → Type 0) (c : Bool) (a b : Result A)
    → Yields P a
    → Yields P b
    → Yields P (if c then a else b)
if-Yields P true a b p q = p
if-Yields P false a b p q = q

module _ (fields : List Field) (word : length fields < 2 ^ 32) where
  restored-Yields :
      (r : Option (Iter × Bool)) (mem : Memory) (s : IStream)
      → LeavesIndexed fields word r
      → Yields (IsIndexed fields) (restored r mem s)
  unfolding restored
  restored-Yields none mem s h = tt
  restored-Yields (some (it, true)) mem s h = h
  restored-Yields (some (it, false)) mem s h = tt

  released-Yields :
      (r : Option Memory) (it : Iter) (mem : Memory) (s : IStream)
      → IsIndexed fields it
      → Yields (IsIndexed fields) (released r it mem s)
  unfolding released
  released-Yields none it mem s h = tt
  released-Yields (some mem') it mem s h = h

  release_old-Yields :
      (release : Iter → Change) (tag : ℕ) (r : Option (Iter × Bool)) (mem : Memory) (s : IStream)
      → LeavesIndexed fields word r
      → Yields (IsIndexed fields) (release_old release tag r mem s)
  unfolding release_old
  release_old-Yields release tag none mem s h = tt
  release_old-Yields release tag (some (it, true)) mem s h =
      and_with-Yields (IsIndexed fields) (IsIndexed fields) (released (release it mem) it mem s) _
        (released-Yields (release it mem) it mem s h)
        (λ it' mem' t h'. restored-Yields _ mem' t (find-LeavesIndexed fields word tag it' h'))
  release_old-Yields release tag (some (it, false)) mem s h = tt

  union-Yields :
      (release : Iter → Change) (it : Iter) (mem : Memory) (s : IStream)
      → IsIndexed fields it
      → Yields (IsIndexed fields) (pb_release_union_field release it mem s)
  unfolding pb_release_union_field
  union-Yields release it mem s h =
      if-Yields (IsIndexed fields)
        (load 4 it.psize mem == 0 || load 4 it.psize mem == (field_at it.start it.pos).tag) _ _ h
        (release_old-Yields release _ _ mem s (find-LeavesIndexed fields word _ it h))

  with_iter-Yields :
      (it : Iter) (r : Outcome) → IsIndexed fields it → Yields (IsIndexed fields) (with_iter it r)
  unfolding with_iter
  with_iter-Yields it (ok _ s, mem) h = h
  with_iter-Yields it (fail s, mem) h = tt
  with_iter-Yields it (fault, mem) h = tt

  pub decode_field-Yields :
      (host : DecodeEnv) (func : Field → ItemDecoder) (defaults : ℕ → ℕ → Change)
      (release : Iter → Change) (wire_type : ℕ) (it : Iter) (mem : Memory) (s : IStream)
      → IsIndexed fields it
      → Yields (IsIndexed fields) (decode_field host func defaults release wire_type it mem s)
  unfolding decode_field
  decode_field-Yields host func defaults release wire_type it mem s h =
      and_with-Yields (IsIndexed fields) (IsIndexed fields) _ _
        (if-Yields (IsIndexed fields) (htype (field_at it.start it.pos).type == htype_oneof) _
          (ok it s, mem) (union-Yields release it mem s h) h)
        (λ it' mem' t h'. with_iter-Yields it' _ h')

  extension_field_loop-LeavesIndexed :
      (rounds start : ℕ) (it : Iter)
      → IsIndexed fields it
      → LeavesIndexed fields word (extension_field_loop rounds start it)
  unfolding extension_field_loop
  extension_field_loop-LeavesIndexed zero start it h = tt
  extension_field_loop-LeavesIndexed (suc rounds) start it h =
      found (ltype (field_at it.start it.pos).type == ltype_extension)
        ((pb_field_iter_next it).0.pos == start)
        (extension_field_loop-LeavesIndexed rounds start _ (next-IsIndexed fields word it h))
    where
      found :
          (c d : Bool)
          → LeavesIndexed fields word (extension_field_loop rounds start (pb_field_iter_next it).0)
          → LeavesIndexed fields word (elim c [
            | true ↦ some (it, true)
            | false ↦ elim d [
              | true ↦ some ((pb_field_iter_next it).0, false)
              | false ↦ extension_field_loop rounds start (pb_field_iter_next it).0
            ]
          ])
      found true d rest = h
      found false true rest = next-IsIndexed fields word it h
      found false false rest = rest

  pub find_extension_field-LeavesIndexed :
      (it : Iter) → IsIndexed fields it → LeavesIndexed fields word (find_extension_field it)
  unfolding find_extension_field
  find_extension_field-LeavesIndexed it h =
      extension_field_loop-LeavesIndexed (suc (length it.start)) it.pos it h
