-- ===== src/Pb/Decoder/Fields/Ends.antt =====
-- The search for the extension field ends.
use daily_diary.Base.{ℕ, zero, suc, ◌^◌, ◌≤◌, ◌<◌, ◌≡◌, refl, sym, ap, arith}
use daily_diary.Base.{Bool, true, false, ◌==◌, some, List, length}
use daily_diary.Pb.{Field, ltype, ltype_extension}
use daily_diary.Pb.Iter.{Iter, field_at, pb_field_iter_next}
use daily_diary.Pb.Iter.Find.{Ahead}
use daily_diary.Pb.Iter.Index.{IsIndexed, next-IsIndexed}
use daily_diary.Pb.Iter.Ends.{EndsOn, closer, once_around}
use daily_diary.Pb.Decoder.Fields.{extension_field_loop, find_extension_field}

abbrev pub is_extension : Field → Bool
is_extension field = ltype field.type == ltype_extension

module _ (fields : List Field) (word : length fields < 2 ^ 32) where
  module _ (start : ℕ) (inside : start < length fields) where
    loop-EndsOn :
        (rounds e : ℕ) (it : Iter)
        → IsIndexed fields it
        → 0 < e
        → e ≤ rounds
        → Ahead (length fields) it.pos e start
        → EndsOn fields word is_extension (extension_field_loop rounds start it)
    unfolding extension_field_loop
    loop-EndsOn zero e it h pos enough around = absurd (omega arith)
    loop-EndsOn (suc rounds) zero it h pos enough around = absurd (omega arith)
    loop-EndsOn (suc rounds) (suc e) it h pos enough around =
        found (is_extension (field_at it.start it.pos)) refl
          ((pb_field_iter_next it).0.pos == start) refl
          (λ apart.
            let (around', pos') = closer fields word start inside it e h around apart in
            loop-EndsOn rounds e _ (next-IsIndexed fields word it h) pos' (omega arith) around')
      where
        found :
            (c : Bool)
            → is_extension (field_at it.start it.pos) ≡ c
            → (d : Bool) → ((pb_field_iter_next it).0.pos == start) ≡ d
            → (((pb_field_iter_next it).0.pos == start) ≡ false
                → EndsOn fields word is_extension
                    (extension_field_loop rounds start (pb_field_iter_next it).0))
            → EndsOn fields word is_extension (elim c [
              | true ↦ some (it, true)
              | false ↦ elim d [
                | true ↦ some ((pb_field_iter_next it).0, false)
                | false ↦ extension_field_loop rounds start (pb_field_iter_next it).0
              ]
            ])
        found true w d a rest = (h, w)
        found false w true a rest = next-IsIndexed fields word it h
        found false w false a rest = rest a

  pub find_extension_field-EndsOn :
      (it : Iter) → IsIndexed fields it → EndsOn fields word is_extension (find_extension_field it)
  unfolding find_extension_field
  find_extension_field-EndsOn it h =
      let on : it.pos < length fields = rw (sym h.same) h.is_iter.on_field in
      let size : length it.start ≡ length fields = ap (λ fs. length fs) h.same in
      loop-EndsOn it.pos on (suc (length it.start)) (length fields) it h (omega arith) (omega arith)
        (once_around fields word it)
