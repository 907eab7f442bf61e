-- ===== src/Pb/Message/Visits.antt =====
-- The loop over the iterator meets every field of a message once, in order.
use mathlib.Core.Option
use native.Mathlib.Decide.{dec_le}
use daily_diary.Base.{
  ℕ, zero, suc, ◌+◌, ◌<◌, ◌≡◌, refl, sym, ap, ◌∙◌, arith, List, [], ◌∷◌, length, drop, Option, some,
  none,
}
use daily_diary.Base.{true, false, ◌==◌}
use daily_diary.Pb.{Field}
use daily_diary.Pb.Iter.{Iter, field_at, pb_field_iter_begin, pb_field_iter_next}
use daily_diary.Pb.Iter.Find.{IsIter, inner_next}
use daily_diary.Pb.Iter.Index.{next_goes_on, next_ends}
use daily_diary.Pb.Message.Absent.{visits, message_visits}

abbrev pub visited_fields : List (Field × ℕ) → List Field
visited_fields [] = []
visited_fields ((field, p) ∷ rest) = field ∷ visited_fields rest

drop-field_at :
    (fields : List Field) (i : ℕ)
    → i < length fields
    → drop i fields ≡ field_at fields i ∷ drop (suc i) fields
drop-field_at [] i h = absurd (omega arith)
drop-field_at (f ∷ fields) zero h = refl
drop-field_at (f ∷ fields) (suc i) h = drop-field_at fields i (omega arith)

drop-length : (fields : List Field) → drop (length fields) fields ≡ []
drop-length [] = refl
drop-length (f ∷ fields) = drop-length fields

module _ (rounds : ℕ) (it : Iter) where
  visits_on :
      (pb_field_iter_next it).1 ≡ true
      → visits (suc rounds) it
        ≡ Option.map
            (λ vs. (field_at it.start it.pos, it.pdata) ∷ vs)
            (visits rounds (pb_field_iter_next it).0)
  unfolding visits
  visits_on e = rw (e, visits) refl

  visits_end :
      (pb_field_iter_next it).1 ≡ false
      → visits (suc rounds) it ≡ some ((field_at it.start it.pos, it.pdata) ∷ [])
  unfolding visits
  visits_end e = rw (e, visits) refl

-- One more visit in front.
in_front :
    (v : Field × ℕ) (vs : Option (List (Field × ℕ))) (fields : List Field)
    → Option.map visited_fields vs ≡ some fields
    → Option.map visited_fields (Option.map (λ rest. v ∷ rest) vs) ≡ some (v.0 ∷ fields)
in_front v none fields e = cc
in_front v (some vs) fields e = ap (λ o. Option.map (λ rest. v.0 ∷ rest) o) e

visits-drop :
    (rounds : ℕ) (it : Iter)
    → IsIter it
    → it.pos + rounds ≡ length it.start
    → Option.map visited_fields (visits rounds it) ≡ some (drop it.pos it.start)
visits-drop zero it h e = absurd (let inside = h.on_field in omega arith)
visits-drop (suc rounds) it h e = elim (dec_le (suc (suc it.pos)) (length it.start)) [
  | yes more ↦
      let (same, moved) = inner_next it h more in
      let it' = (pb_field_iter_next it).0 in
      let inside : it'.pos < length it'.start = rw (same, moved) more in
      let len0 : suc it.pos + rounds ≡ length it.start = omega arith in
      let len : it'.pos + rounds ≡ length it'.start = rw (same, moved) len0 in
      let rest =
        visits-drop rounds it' (record { on_field = inside; tagged = rw same h.tagged }) len in
      let ahead : drop it'.pos it'.start ≡ drop (suc it.pos) it.start = rw (same, moved) refl in
      ap (λ o. Option.map visited_fields o) (visits_on rounds it (next_goes_on it h more))
      ∙ in_front (field_at it.start it.pos, it.pdata) (visits rounds it') _ (rest ∙ ap some ahead)
      ∙ ap some (sym (drop-field_at it.start it.pos h.on_field))
  | no last ↦
      let inside = h.on_field in
      let at_end : suc it.pos ≡ length it.start = omega arith in
      ap (λ o. Option.map visited_fields o) (visits_end rounds it (next_ends it h at_end))
      ∙ ap some (
          sym (
            drop-field_at it.start it.pos inside
            ∙ ap (λ xs. field_at it.start it.pos ∷ xs)
                (ap (λ n. drop n it.start) at_end ∙ drop-length it.start)))
]

-- For a message without a tag of 0, the loop over the iterator ends within a round for each
-- field, and meets each field of the descriptor once, in the order of the descriptor.
pub message_visits-visited_fields :
    (fields : List Field) (src : ℕ)
    → ((i : ℕ) → i < length fields → 0 < (field_at fields i).tag)
    → Option.map visited_fields (message_visits fields src) ≡ some fields
unfolding message_visits pb_field_iter_begin
message_visits-visited_fields [] src h = refl
message_visits-visited_fields (f ∷ fields) src h =
    let tagged : (f.tag == 0) ≡ false = ground (arith, h 0 (omega arith)) in
    rw tagged (
      visits-drop (suc (length fields)) (pb_field_iter_begin (f ∷ fields) src).0
        (record { on_field = omega arith; tagged = h }) (omega arith))
