-- ===== src/Pb/Iter/Index.antt =====
-- `required_field_index` counts the required fields before the iterator.
use native.Mathlib.Decide.{dec_le}
use daily_diary.Base.{ℕ, zero, suc, ◌+◌, ◌^◌, ◌≤◌, ◌<◌, ◌≡◌, refl, ap, ◌∙◌, sym, arith}
use daily_diary.Base.{u32, Bool, true, false, ◌==◌, Option, none, some}
use daily_diary.Base.{List, [], ◌∷◌, length, if◌then◌else◌}
use daily_diary.Pb.{Field, htype, htype_required}
use daily_diary.Pb.Iter.{Iter, field_at, pb_field_iter_begin, pb_field_iter_next, advance_data}
use daily_diary.Pb.Iter.{is_wanted, find_loop, pb_field_iter_find}
use daily_diary.Pb.Iter.Find.{IsIter, past_end, next-Moved, Moved-IsIter, inner_next, last_next}

pub next_goes_on :
    (it : Iter) → IsIter it → suc it.pos < length it.start → (pb_field_iter_next it).1 ≡ true
unfolding pb_field_iter_next
next_goes_on it h more = ground (arith, h.tagged it.pos h.on_field, h.tagged (suc it.pos) more)

pub next_ends :
    (it : Iter) → IsIter it → suc it.pos ≡ length it.start → (pb_field_iter_next it).1 ≡ false
unfolding pb_field_iter_next
next_ends it h last =
    ground (arith, h.tagged it.pos h.on_field, past_end it.start (suc it.pos) (omega arith))

abbrev pub is_required : Field → Bool
is_required field = htype field.type == htype_required

-- How many of the first `i` fields are required.
unfoldable pub required_before : List Field → ℕ → ℕ
required_before fields zero = 0
required_before [] (suc i) = 0
required_before (f ∷ fields) (suc i) = (if is_required f then 1 else 0) + required_before fields i

pub required_before-suc :
    (fields : List Field) (i : ℕ)
    → i < length fields
    → required_before fields (suc i)
      ≡ required_before fields i + (if is_required (field_at fields i) then 1 else 0)
unfolding required_before
required_before-suc [] i h = absurd (omega arith)
required_before-suc (f ∷ fields) zero h = omega arith
required_before-suc (f ∷ fields) (suc i) h =
    omega (arith, required_before-suc fields i (omega arith))

pub required_before-bound : (fields : List Field) (i : ℕ) → required_before fields i ≤ i
unfolding required_before
required_before-bound fields zero = omega arith
required_before-bound [] (suc i) = omega arith
required_before-bound (f ∷ fields) (suc i) = ground (arith, required_before-bound fields i)

-- A required field counts for every field behind it.
pub required_before-less :
    (fields : List Field) (i j : ℕ)
    → i < j
    → j ≤ length fields
    → is_required (field_at fields i) ≡ true
    → required_before fields i < required_before fields j
unfolding required_before
required_before-less fields i zero h k r = absurd (omega arith)
required_before-less [] i (suc j) h k r = absurd (omega arith)
required_before-less (f ∷ fields) zero (suc j) h k r = ground arith
required_before-less (f ∷ fields) (suc i) (suc j) h k r =
    omega (arith, required_before-less fields i j (omega arith) (omega arith) r)

-- An iterator on a field of a message, with the index it should have.
pub record IsIndexed (fields : List Field) (it : Iter) : Type 0 where
  pub same : it.start ≡ fields
  pub is_iter : IsIter it
  pub index : it.required_field_index ≡ required_before fields it.pos

index_next :
    (it : Iter)
    → IsIter it
    → suc it.pos < length it.start
    → (pb_field_iter_next it).0.required_field_index ≡ (
        if is_required (field_at it.start it.pos)
        then u32 (it.required_field_index + 1)
        else it.required_field_index)
unfolding pb_field_iter_next advance_data
index_next it h more = ground (arith, h.tagged it.pos h.on_field, h.tagged (suc it.pos) more)

index_last :
    (it : Iter)
    → IsIter it
    → suc it.pos ≡ length it.start
    → (pb_field_iter_next it).0.required_field_index ≡ 0
unfolding pb_field_iter_next pb_field_iter_begin
index_last it h last =
    ground (arith, h.tagged it.pos h.on_field, past_end it.start (suc it.pos) (omega arith))

pub one_more :
    (fields : List Field) (k i : ℕ) (r : Bool)
    → i < length fields
    → length fields < 2 ^ 32
    → k ≡ required_before fields i
    → is_required (field_at fields i) ≡ r
    → (if r then u32 (k + 1) else k) ≡ required_before fields (suc i)
one_more fields k i true h word e c =
    let bound = required_before-bound fields i in
    let counted = required_before-suc fields i h in ground arith
one_more fields k i false h word e c = let counted = required_before-suc fields i h in ground arith

module _ (fields : List Field) (word : length fields < 2 ^ 32) where
  pub next-IsIndexed :
      (it : Iter) → IsIndexed fields it → IsIndexed fields (pb_field_iter_next it).0
  unfolding required_before
  next-IsIndexed it h = record {
    same = (next-Moved it h.is_iter).same ∙ h.same;
    is_iter = Moved-IsIter it _ h.is_iter (next-Moved it h.is_iter);
    index = elim (dec_le (suc (suc it.pos)) (length it.start)) [
      | yes more ↦
          index_next it h.is_iter (omega arith)
          ∙ ap
              (λ fs.
                if is_required (field_at fs it.pos)
                then u32 (it.required_field_index + 1)
                else it.required_field_index)
              h.same
          ∙ one_more fields it.required_field_index it.pos _ (rw (sym h.same) h.is_iter.on_field)
              word h.index refl
          ∙ ap (λ k. required_before fields k) (sym (inner_next it h.is_iter (omega arith)).1)
      | no last ↦
          let inside = h.is_iter.on_field in
          index_last it h.is_iter (omega arith)
          ∙ ap (λ k. required_before fields k) (sym (last_next it h.is_iter (omega arith)).1)
    ];
  }

  -- The iterator that a search leaves, where it ends.
  abbrev pub LeavesIndexed : Option (Iter × Bool) → Type 0
  LeavesIndexed none = Unit {0}
  LeavesIndexed (some (it, found)) = IsIndexed fields it

  find_loop-LeavesIndexed :
      (rounds start tag : ℕ) (it : Iter)
      → IsIndexed fields it
      → LeavesIndexed (find_loop rounds start tag it)
  unfolding find_loop
  find_loop-LeavesIndexed zero start tag it h = tt
  find_loop-LeavesIndexed (suc rounds) start tag it h =
      found (is_wanted tag (field_at it.start it.pos)) ((pb_field_iter_next it).0.pos == start)
        (find_loop-LeavesIndexed rounds start tag _ (next-IsIndexed it h))
    where
      found :
          (c d : Bool)
          → LeavesIndexed (find_loop rounds start tag (pb_field_iter_next it).0)
          → LeavesIndexed (elim c [
            | true ↦ some (it, true)
            | false ↦ elim d [
              | true ↦ some ((pb_field_iter_next it).0, false)
              | false ↦ find_loop rounds start tag (pb_field_iter_next it).0
            ]
          ])
      found true d rest = h
      found false true rest = next-IsIndexed it h
      found false false rest = rest

  pub find-LeavesIndexed :
      (tag : ℕ) (it : Iter) → IsIndexed fields it → LeavesIndexed (pb_field_iter_find tag it)
  unfolding pb_field_iter_find
  find-LeavesIndexed tag it h = find_loop-LeavesIndexed (suc (length it.start)) it.pos tag it h
