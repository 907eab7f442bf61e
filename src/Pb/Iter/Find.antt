-- ===== src/Pb/Iter/Find.antt =====
-- `pb_field_iter_find` goes once around the fields.
use native.Mathlib.Decide.{dec_le}
use daily_diary.Base.{
  ℕ, zero, suc, ◌+◌, ◌-◌, ◌≤◌, ◌<◌, ◌≡◌, refl, ap, ◌∙◌, arith, ◌⊎◌, inl, inr, length,
}
use daily_diary.Base.{Bool, true, false, Bool-cases, ◌==◌, Option, some, List, [], ◌∷◌}
use daily_diary.Pb.{Field}
use daily_diary.Pb.Iter.{Iter, field_at, pb_field_iter_next, pb_field_iter_begin}
use daily_diary.Pb.Iter.{is_wanted, find_loop, pb_field_iter_find}

-- An iterator on a field of a message, none of whose fields has the tag 0.
pub record IsIter (it : Iter) : Type 0 where
  pub on_field : it.pos < length it.start
  pub tagged : (i : ℕ) → i < length it.start → 0 < (field_at it.start i).tag

pub past_end : (fields : List Field) (i : ℕ) → length fields ≤ i → (field_at fields i).tag ≡ 0
past_end [] i h = refl
past_end (f ∷ fields) zero h = absurd (omega arith)
past_end (f ∷ fields) (suc i) h = past_end fields i (omega arith)

-- `next` goes to the next field, and from the last one to the first.
pub record Moved (it it' : Iter) : Type 0 where
  pub same : it'.start ≡ it.start
  pub turned :
      ((suc it.pos < length it.start) × (it'.pos ≡ suc it.pos))
      ⊎ ((suc it.pos ≡ length it.start) × (it'.pos ≡ 0))

pub inner_next :
    (it : Iter)
    → IsIter it
    → suc it.pos < length it.start
    → ((pb_field_iter_next it).0.start ≡ it.start) × ((pb_field_iter_next it).0.pos ≡ suc it.pos)
unfolding pb_field_iter_next
inner_next it h more = ground (arith, h.tagged it.pos h.on_field, h.tagged (suc it.pos) more)

pub last_next :
    (it : Iter)
    → IsIter it
    → suc it.pos ≡ length it.start
    → ((pb_field_iter_next it).0.start ≡ it.start) × ((pb_field_iter_next it).0.pos ≡ 0)
unfolding pb_field_iter_next pb_field_iter_begin
last_next it h last =
    ground (arith, h.tagged it.pos h.on_field, past_end it.start (suc it.pos) (omega arith))

abbrev pub Turns : ℕ → ℕ → ℕ → Type 0
Turns n p p' = ((suc p < n) × (p' ≡ suc p)) ⊎ ((suc p ≡ n) × (p' ≡ 0))

pub next-Moved : (it : Iter) → IsIter it → Moved it (pb_field_iter_next it).0
next-Moved it h = elim (dec_le (suc (suc it.pos)) (length it.start)) [
  | yes more ↦
      let (same, e) = inner_next it h (omega arith) in
      record { same = same; turned = inl (omega arith, e) }
  | no last ↦
      let inside = h.on_field in
      let (same, e) = last_next it h (omega arith) in
      record { same = same; turned = inr (omega arith, e) }
]

turn_inside : (n p p' : ℕ) → p < n → Turns n p p' → p' < n
turn_inside n p p' h (inl (more, e)) = omega arith
turn_inside n p p' h (inr (last, e)) = omega arith

pub Moved-IsIter : (it it' : Iter) → IsIter it → Moved it it' → IsIter it'
Moved-IsIter it it' h m = record {
  on_field =
      let inside = turn_inside (length it.start) it.pos it'.pos h.on_field m.turned in
      rw m.same inside;
  tagged = rw m.same h.tagged;
}

-- `d` turns lead from `p` to `i`.
abbrev pub Ahead : ℕ → ℕ → ℕ → ℕ → Type 0
Ahead n p d i = (p + d ≡ i) ⊎ (p + d ≡ i + n)

pub turn-Ahead : (n p p' d i : ℕ) → i < n → Turns n p p' → Ahead n p (suc d) i → Ahead n p' d i
turn-Ahead n p p' d i h (inl (more, e)) (inl a) = inl (omega arith)
turn-Ahead n p p' d i h (inl (more, e)) (inr a) = inr (omega arith)
turn-Ahead n p p' d i h (inr (last, e)) (inl a) = absurd (omega arith)
turn-Ahead n p p' d i h (inr (last, e)) (inr a) = inl (omega arith)

pub arrived : (n p i : ℕ) → p < n → Ahead n p 0 i → p ≡ i
arrived n p i h (inl a) = omega arith
arrived n p i h (inr a) = absurd (omega arith)

not_arrived : (n p d i : ℕ) → 0 < d → d < n → Ahead n p d i → (p == i) ≡ false
not_arrived n p d i pos h (inl a) = ground arith
not_arrived n p d i pos h (inr a) = ground arith

-- The three ways that a round goes.
module _ (rounds start tag : ℕ) (it : Iter) where
  stop_found :
      is_wanted tag (field_at it.start it.pos) ≡ true
      → find_loop (suc rounds) start tag it ≡ some (it, true)
  unfolding find_loop
  stop_found w = ground arith

  module _ (w : is_wanted tag (field_at it.start it.pos) ≡ false) where
    stop_around :
        ((pb_field_iter_next it).0.pos == start) ≡ true
        → find_loop (suc rounds) start tag it ≡ some ((pb_field_iter_next it).0, false)
    unfolding find_loop
    stop_around e = ground arith

    go_on :
        ((pb_field_iter_next it).0.pos == start) ≡ false
        → find_loop (suc rounds) start tag it ≡ find_loop rounds start tag (pb_field_iter_next it).0
    unfolding find_loop
    go_on e = ground arith

-- A result of true, with the iterator on a field with the tag that is no extension.
abbrev pub Finds : List Field → ℕ → Option (Iter × Bool) → Type 0
Finds fields tag r =
    (it : Iter) × (r ≡ some (it, true))
    × (it.start ≡ fields)
    × (it.pos < length fields)
    × (is_wanted tag (field_at fields it.pos) ≡ true)

-- A result of false, with the iterator where it was.
abbrev pub Returns : ℕ → Option (Iter × Bool) → Type 0
Returns start r = (it : Iter) × (r ≡ some (it, false)) × (it.pos ≡ start)

find_loop-found :
    (rounds start tag : ℕ) (it : Iter) (i d e : ℕ)
    → IsIter it
    → start < length it.start
    → i < length it.start
    → is_wanted tag (field_at it.start i) ≡ true
    → d < e
    → d < rounds
    → e ≤ length it.start
    → Ahead (length it.start) it.pos d i
    → Ahead (length it.start) it.pos e start
    → Finds it.start tag (find_loop rounds start tag it)
find_loop-found zero start tag it i d e h hs hi w less enough whole ahead around =
    absurd (omega arith)
find_loop-found (suc rounds) start tag it i zero e h hs hi w less enough whole ahead around =
    let here =
      ap (λ k. is_wanted tag (field_at it.start k)) (arrived _ it.pos i h.on_field ahead) ∙ w in
    (it, stop_found rounds start tag it here, refl, h.on_field, here)
find_loop-found (suc rounds) start tag it i (suc d) zero h hs hi w less enough whole ahead around =
    absurd (omega arith)
find_loop-found (suc rounds) start tag it i (suc d) (suc e) h hs hi w less enough whole ahead
      around =
    elim (Bool-cases (is_wanted tag (field_at it.start it.pos))) [
      | inl here ↦ (it, stop_found rounds start tag it here, refl, h.on_field, here)
      | inr other ↦
          let m = next-Moved it h in
          let it' = (pb_field_iter_next it).0 in
          let ahead' = turn-Ahead _ it.pos it'.pos d i hi m.turned ahead in
          let around' = turn-Ahead _ it.pos it'.pos e start hs m.turned around in
          let whole' : e ≤ length it.start = omega arith in
          let rest =
            find_loop-found rounds start tag it' i d e (Moved-IsIter it it' h m) (rw m.same hs)
              (rw m.same hi) (rw m.same w) (omega arith) (omega arith) (rw m.same whole')
              (rw m.same ahead') (rw m.same around') in
          rw
            (go_on rounds start tag it other
              (not_arrived _ it'.pos e start (omega arith) (omega arith) around'))
            (simp m.same at rest)
    ]

find_loop-absent :
    (rounds start tag : ℕ) (it : Iter) (e : ℕ)
    → IsIter it
    → start < length it.start
    → ((i : ℕ) → i < length it.start → is_wanted tag (field_at it.start i) ≡ false)
    → e ≤ rounds
    → 0 < e
    → e ≤ length it.start
    → Ahead (length it.start) it.pos e start
    → Returns start (find_loop rounds start tag it)
find_loop-absent rounds start tag it zero h hs w enough some_round whole around =
    absurd (omega arith)
find_loop-absent zero start tag it (suc e) h hs w enough some_round whole around =
    absurd (omega arith)
find_loop-absent (suc rounds) start tag it (suc zero) h hs w enough some_round whole around =
    let m = next-Moved it h in
    let it' = (pb_field_iter_next it).0 in
    let around' = turn-Ahead _ it.pos it'.pos 0 start hs m.turned around in
    let back = arrived _ it'.pos start (turn_inside _ it.pos it'.pos h.on_field m.turned) around' in
    let same : (it'.pos == start) ≡ true = ground arith in
    (it', stop_around rounds start tag it (w it.pos h.on_field) same, back)
find_loop-absent (suc rounds) start tag it (suc (suc e)) h hs w enough some_round whole around =
    let m = next-Moved it h in
    let it' = (pb_field_iter_next it).0 in
    let around' = turn-Ahead _ it.pos it'.pos (suc e) start hs m.turned around in
    let whole' : suc e ≤ length it.start = omega arith in
    let (last, r, back) =
      find_loop-absent rounds start tag it' (suc e) (Moved-IsIter it it' h m) (rw m.same hs)
        (rw m.same w) (omega arith) (omega arith) (rw m.same whole') (rw m.same around') in
    (
      last,
      go_on rounds start tag it (w it.pos h.on_field)
            (not_arrived _ it'.pos (suc e) start (omega arith) (omega arith) around')
          ∙ r,
      back,
    )

-- From any field of a message without a tag of 0, `pb_field_iter_find` returns true on a field
-- with the wanted tag that is no extension, where the message has one.
pub pb_field_iter_find-found :
    (tag : ℕ) (it : Iter) (i : ℕ)
    → IsIter it
    → i < length it.start
    → is_wanted tag (field_at it.start i) ≡ true
    → Finds it.start tag (pb_field_iter_find tag it)
unfolding pb_field_iter_find
pb_field_iter_find-found tag it i h hi w =
    let inside = h.on_field in
    let n = length it.start in
    elim (dec_le it.pos i) [
      | yes later ↦
          find_loop-found (suc n) it.pos tag it i (i - it.pos) n h inside hi w (omega arith)
            (omega arith) (omega arith) (inl (omega arith)) (inr (omega arith))
      | no earlier ↦
          find_loop-found (suc n) it.pos tag it i (i + n - it.pos) n h inside hi w (omega arith)
            (omega arith) (omega arith) (inr (omega arith)) (inr (omega arith))
    ]

-- From any field of a message without a tag of 0, where no field has the wanted tag and is no
-- extension, `pb_field_iter_find` ends, returns false, and leaves the iterator on the field it
-- was on.
pub pb_field_iter_find-absent :
    (tag : ℕ) (it : Iter)
    → IsIter it
    → ((i : ℕ) → i < length it.start → is_wanted tag (field_at it.start i) ≡ false)
    → Returns it.pos (pb_field_iter_find tag it)
unfolding pb_field_iter_find
pb_field_iter_find-absent tag it h w =
    let inside = h.on_field in
    let n = length it.start in
    find_loop-absent (suc n) it.pos tag it n h inside w (omega arith) (omega arith) (omega arith)
      (inr (omega arith))
