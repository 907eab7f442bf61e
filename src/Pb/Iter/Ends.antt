-- ===== src/Pb/Iter/Ends.antt =====
-- The searches over the fields of a message end, and say where.
use daily_diary.Base.{ℕ, zero, suc, ◌^◌, ◌≤◌, ◌<◌, ◌≡◌, refl, sym, ap, arith, inr}
use daily_diary.Base.{Bool, true, false, ◌==◌, Option, none, some, List, length}
use daily_diary.Pb.{Field}
use daily_diary.Pb.Iter.{
  Iter, field_at, pb_field_iter_next, is_wanted, find_loop, pb_field_iter_find,
}
use daily_diary.Pb.Iter.Find.{Turns, Ahead, next-Moved, turn-Ahead, arrived}
use daily_diary.Pb.Iter.Index.{IsIndexed, next-IsIndexed}

module _ (fields : List Field) (word : length fields < 2 ^ 32) where
  -- The end of a search for a field with a property.
  abbrev pub EndsOn : (Field → Bool) → Option (Iter × Bool) → Type 0
  EndsOn wanted none = ⊥
  EndsOn wanted (some (it, true)) = IsIndexed fields it × (wanted (field_at it.start it.pos) ≡ true)
  EndsOn wanted (some (it, false)) = IsIndexed fields it

  pub next-Turns :
      (it : Iter) → IsIndexed fields it → Turns (length fields) it.pos (pb_field_iter_next it).0.pos
  next-Turns it h = rw (sym h.same) (next-Moved it h.is_iter).turned

  pub once_around : (it : Iter) → Ahead (length fields) it.pos (length fields) it.pos
  once_around it = inr (omega arith)

  module _ (start : ℕ) (inside : start < length fields) where
    -- One turn closer to the start, or there.
    pub closer :
        (it : Iter) (e : ℕ)
        → IsIndexed fields it
        → Ahead (length fields) it.pos (suc e) start
        → ((pb_field_iter_next it).0.pos == start) ≡ false
        → Ahead (length fields) (pb_field_iter_next it).0.pos e start × (0 < e)
    closer it e h around apart = (turned, more e turned)
      where
        turned : Ahead (length fields) (pb_field_iter_next it).0.pos e start
        turned = turn-Ahead _ it.pos _ e start inside (next-Turns it h) around

        more : (e : ℕ) → Ahead (length fields) (pb_field_iter_next it).0.pos e start → 0 < e
        more zero a =
            let next = next-IsIndexed fields word it h in
            let on : (pb_field_iter_next it).0.pos < length fields =
              rw (sym next.same) next.is_iter.on_field in
            let there = arrived _ _ start on a in absurd (ground arith)
        more (suc e) a = omega arith

    find_loop-EndsOn :
        (tag rounds e : ℕ) (it : Iter)
        → IsIndexed fields it
        → 0 < e
        → e ≤ rounds
        → Ahead (length fields) it.pos e start
        → EndsOn (is_wanted tag) (find_loop rounds start tag it)
    unfolding find_loop
    find_loop-EndsOn tag zero e it h pos enough around = absurd (omega arith)
    find_loop-EndsOn tag (suc rounds) zero it h pos enough around = absurd (omega arith)
    find_loop-EndsOn tag (suc rounds) (suc e) it h pos enough around =
        found (is_wanted tag (field_at it.start it.pos)) refl
          ((pb_field_iter_next it).0.pos == start) refl
          (λ apart.
            let (around', pos') = closer it e h around apart in
            find_loop-EndsOn tag rounds e _ (next-IsIndexed fields word it h) pos' (omega arith)
              around')
      where
        found :
            (c : Bool)
            → is_wanted tag (field_at it.start it.pos) ≡ c
            → (d : Bool) → ((pb_field_iter_next it).0.pos == start) ≡ d
            → (((pb_field_iter_next it).0.pos == start) ≡ false
                → EndsOn (is_wanted tag) (find_loop rounds start tag (pb_field_iter_next it).0))
            → EndsOn (is_wanted tag) (elim c [
              | true ↦ some (it, true)
              | false ↦ elim d [
                | true ↦ some ((pb_field_iter_next it).0, false)
                | false ↦ find_loop rounds start tag (pb_field_iter_next it).0
              ]
            ])
        found true w d a rest = (h, w)
        found false w true a rest = next-IsIndexed fields word it h
        found false w false a rest = rest a

  pub find-EndsOn :
      (tag : ℕ) (it : Iter)
      → IsIndexed fields it
      → EndsOn (is_wanted tag) (pb_field_iter_find tag it)
  unfolding pb_field_iter_find
  find-EndsOn tag it h =
      let on : it.pos < length fields = rw (sym h.same) h.is_iter.on_field in
      let size : length it.start ≡ length fields = ap (λ fs. length fs) h.same in
      find_loop-EndsOn it.pos on tag (suc (length it.start)) (length fields) it h (omega arith)
        (omega arith) (once_around it)
