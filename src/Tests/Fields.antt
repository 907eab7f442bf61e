-- ===== src/Tests/Fields.antt =====
-- The field iterator at a concrete message.
use daily_diary.Base.{ℕ, zero, suc, ◌<◌, ◌≡◌, refl, arith, [], ◌∷◌, true, false}
use daily_diary.Pb.{Field, ltype_svarint}
use daily_diary.Pb.Iter.{
  Iter, field_at, is_wanted, pb_field_iter_begin, pb_field_iter_next, pb_field_iter_find,
}
use daily_diary.Pb.Iter.Find.{
  IsIter, Finds, Returns, pb_field_iter_find-found, pb_field_iter_find-absent,
}

abbrev int_field : ℕ → ℕ → Field
int_field tag offset = record {
  tag = tag;
  type = ltype_svarint;
  data_offset = offset;
  size_offset = 0;
  data_size = 4;
  array_size = 0;
  ptr = 0;
}

-- Fields 3 and 7, the iterator on field 7.
abbrev on_seven : Iter
on_seven = record {
  start = int_field 3 0 ∷ int_field 7 0 ∷ [];
  pos = 1;
  required_field_index = 1;
  dest_struct = 1000;
  pdata = 1004;
  psize = 1004;
}

on_seven-IsIter : IsIter on_seven
on_seven-IsIter = record { on_field = omega arith; tagged = nonzero }
  where
    nonzero : (i : ℕ) → i < 2 → 0 < (field_at on_seven.start i).tag
    nonzero zero h = omega arith
    nonzero (suc zero) h = omega arith
    nonzero (suc (suc i)) h = absurd (omega arith)

begin_then_next :
    (pb_field_iter_next (pb_field_iter_begin on_seven.start 1000).0) ≡ (on_seven, true)
unfolding pb_field_iter_next pb_field_iter_begin
begin_then_next = refl

pb_field_iter_find-found_example : Finds on_seven.start 3 (pb_field_iter_find 3 on_seven)
pb_field_iter_find-found_example =
    pb_field_iter_find-found 3 on_seven 0 on_seven-IsIter (omega arith) refl

no_nine : (i : ℕ) → i < 2 → is_wanted 9 (field_at on_seven.start i) ≡ false
no_nine zero h = refl
no_nine (suc zero) h = refl
no_nine (suc (suc i)) h = absurd (omega arith)

pb_field_iter_find-absent_example : Returns 1 (pb_field_iter_find 9 on_seven)
pb_field_iter_find-absent_example = pb_field_iter_find-absent 9 on_seven on_seven-IsIter no_nine
