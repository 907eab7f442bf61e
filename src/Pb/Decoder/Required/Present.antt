-- ===== src/Pb/Decoder/Required/Present.antt =====
-- A message that lacks a required field is refused.
use native.Mathlib.Decide.{dec_le}
use daily_diary.Base.{ℕ, ◌-◌, ◌^◌, ◌<◌, ◌≡◌, ◌≢◌, refl, sym, ◌∙◌, arith}
use daily_diary.Base.{Bool, true, false, ◌==◌, ◌&&◌, leb, ltb}
use daily_diary.Base.{List, length, if◌then◌else◌, Option, none, some}
use daily_diary.Pb.{htype, htype_repeated, ok, fail, fault}
use daily_diary.Pb.IStream.{IStream}
use daily_diary.Pb.Decode.{Tag, pb_skip_field}
use daily_diary.Pb.Iter.{Iter, field_at}
use daily_diary.Pb.Iter.Index.{is_required, required_before, required_before-less, IsIndexed}
use daily_diary.Pb.Iter.Index.{LeavesIndexed, find-LeavesIndexed}
use daily_diary.Pb.Scalar.{Memory}
use daily_diary.Pb.{Field}
use daily_diary.Pb.Decoder.{Result}
use daily_diary.Pb.Decoder.Fields.{find_extension_field}
use daily_diary.Pb.Decoder.Fields.Index.{Yields, and_with-Yields, if-Yields}
use daily_diary.Pb.Decoder.Fields.Index.{find_extension_field-LeavesIndexed}
use daily_diary.Pb.Decoder.Required.{mark_seen}
use daily_diary.Pb.Decoder.Required.Marks.{mark_of, mark_seen-other, length-mark_seen}
use daily_diary.Pb.Decoder.Rounds.{Locals, counts_into, enter_fixed_count, mark, known_field}
use daily_diary.Pb.Decoder.Rounds.{skip_unknown, try_extension, dispatch, is_same_field}
use daily_diary.Pb.Decoder.Rounds.{is_wrong_size}
use daily_diary.Pb.Decoder.Rounds.Reads.{
  FieldDecoder, ExtensionDecoder, Reads, stop, known, unknown,
}
use daily_diary.Pb.Decoder.Rounds.Reads.{occurs}

-- The variables in a message with these fields, where the required field `i` has no mark.
pub record Lacks (fields : List Field) (i : ℕ) (v : Locals) : Type 0 where
  pub indexed : IsIndexed fields v.it
  pub words : length v.fields_seen ≡ 2
  pub unmarked : mark_of (required_before fields i) v.fields_seen ≡ 0

module _ (fields : List Field) (word : length fields < 2 ^ 32) (i : ℕ) (inside : i < length fields)
    (required : is_required (field_at fields i) ≡ true)
    (early : required_before fields i < 64) where
  -- No other required field has the same index.
  other_index :
      (j : ℕ)
      → j < length fields
      → is_required (field_at fields j) ≡ true
      → j ≢ i
      → required_before fields i ≢ required_before fields j
  other_index j h r apart e = elim (dec_le j i) [
    | yes before ↦
        let d : j < i = ground arith in
        omega (arith, required_before-less fields j i d (omega arith) r)
    | no behind ↦
        omega (arith, required_before-less fields i j (omega arith) (omega arith) required)
  ]

  mark-Lacks : (v : Locals) → Lacks fields i v → v.it.pos ≢ i → Lacks fields i (mark v)
  mark-Lacks v h apart = marked (is_required (field_at v.it.start v.it.pos)) refl
    where
      other :
          is_required (field_at v.it.start v.it.pos) ≡ true
          → required_before fields i ≢ v.it.required_field_index
      other r e =
          other_index v.it.pos (rw (sym h.indexed.same) h.indexed.is_iter.on_field)
            (rw (sym h.indexed.same) r) apart (e ∙ h.indexed.index)

      choose :
          (c : Bool)
          → is_required (field_at v.it.start v.it.pos) ≡ true
          → Lacks fields i (record v {
            fields_seen =
                if c then mark_seen v.it.required_field_index v.fields_seen else v.fields_seen;
          })
      choose true r = record {
        indexed = h.indexed;
        words = length-mark_seen v.it.required_field_index v.fields_seen ∙ h.words;
        unmarked =
            mark_seen-other (required_before fields i) v.it.required_field_index v.fields_seen
              (other r) early h.words h.unmarked;
      }
      choose false r = h

      marked :
          (c : Bool)
          → is_required (field_at v.it.start v.it.pos) ≡ c
          → Lacks fields i (record v {
            fields_seen =
                if c && ltb v.it.required_field_index 64
                then mark_seen v.it.required_field_index v.fields_seen
                else v.fields_seen;
          })
      marked true r = choose (ltb v.it.required_field_index 64) r
      marked false r = h

  -- Behind the choice of a counter.
  abbrev LacksOn : ℕ → Locals → Type 0
  LacksOn pos v = Lacks fields i v × (v.it.pos ≡ pos)

  counts-LacksOn :
      (counter : ℕ) (v : Locals) → Lacks fields i v → LacksOn v.it.pos (counts_into counter v)
  counts-LacksOn counter v h = (
    record {
      indexed = record {
        same = h.indexed.same;
        is_iter = record {
          on_field = h.indexed.is_iter.on_field;
          tagged = h.indexed.is_iter.tagged;
        };
        index = h.indexed.index;
      };
      words = h.words;
      unmarked = h.unmarked;
    },
    refl,
  )

  enter-Yields :
      (counter : ℕ) (v : Locals) (mem : Memory) (s : IStream)
      → Lacks fields i v
      → Yields (LacksOn v.it.pos) (enter_fixed_count counter v mem s)
  unfolding enter_fixed_count
  enter-Yields counter v mem s h =
      if-Yields (LacksOn v.it.pos)
        (htype (field_at v.it.start v.it.pos).type == htype_repeated && v.it.psize == v.it.pdata) _
        _
        (if-Yields (LacksOn v.it.pos) (is_same_field v.it.pos v.fixed_count_field) _ _
          (counts-LacksOn counter v h)
          (if-Yields (LacksOn v.it.pos) (is_wrong_size counter v.it v.fixed_count_field mem) _ _ tt
            (counts-LacksOn counter v h)))
        (h, refl)

  module _ (field : FieldDecoder) (extension : ExtensionDecoder) (counter : ℕ)
      (keeps : (wire_type : ℕ) (it : Iter) (mem : Memory) (s : IStream)
        → IsIndexed fields it
        → Yields (IsIndexed fields) (field wire_type it mem s)) where
    known-Yields :
        (wire_type : ℕ) (v : Locals) (mem : Memory) (s : IStream)
        → Lacks fields i v
        → v.it.pos ≢ i
        → Yields (Lacks fields i) (known_field field extension counter wire_type v mem s)
    unfolding known_field
    known-Yields wire_type v mem s h apart =
        and_with-Yields (LacksOn v.it.pos) (Lacks fields i) (enter_fixed_count counter v mem s) _
          (enter-Yields counter v mem s h)
          (λ v' mem' s' (h', e).
            and_with-Yields (IsIndexed fields) (Lacks fields i) (field wire_type v'.it mem' s') _
              (keeps wire_type v'.it mem' s' h'.indexed)
              (λ it mem'' s'' indexed.
                let marked = mark-Lacks v' h' (λ p. apart (sym e ∙ p)) in
                record { indexed = indexed; words = marked.words; unmarked = marked.unmarked }))

    moved-Lacks :
        (v : Locals) (it : Iter) (start : ℕ)
        → Lacks fields i v
        → IsIndexed fields it
        → Lacks fields i (record v { it = it; extension_range_start = start })
    moved-Lacks v it start h k = record { indexed = k; words = h.words; unmarked = h.unmarked }

    unit-Yields : (r : Result (Unit {0})) → Yields (λ u. Unit {0}) r
    unit-Yields (ok u t, mem) = tt
    unit-Yields (fail t, mem) = tt
    unit-Yields (fault, mem) = tt

    skip-Yields :
        (wire_type : ℕ) (v : Locals) (mem : Memory) (s : IStream)
        → Lacks fields i v
        → Yields (Lacks fields i) (skip_unknown field extension counter wire_type v mem s)
    unfolding skip_unknown
    skip-Yields wire_type v mem s h =
        and_with-Yields (λ u. Unit {0}) (Lacks fields i) (pb_skip_field wire_type s, mem) _
          (unit-Yields (pb_skip_field wire_type s, mem)) (λ u mem' s' t. h)

    try-Yields :
        (tag : Tag) (v : Locals) (r : Option (Iter × Bool)) (mem : Memory) (s : IStream)
        → Lacks fields i v
        → LeavesIndexed fields word r
        → Yields (Lacks fields i) (try_extension field extension counter tag v r mem s)
    unfolding try_extension
    try-Yields tag v none mem s h k = tt
    try-Yields tag v (some (it, found)) mem s h k =
        let start = if found then (field_at it.start it.pos).tag else 2 ^ 32 - 1 in
        let v' = record v { it = it; extension_range_start = start } in
        let h' = moved-Lacks v it start h k in
        if-Yields (Lacks fields i) (leb start tag.tag) _ _
          (and_with-Yields (λ u. Unit {0}) (Lacks fields i)
            (extension tag.tag tag.wire_type it mem s) _ (unit-Yields _)
            (λ u mem' s' t.
              if-Yields (Lacks fields i) (s.bytes_left == s'.bytes_left) _ (ok v' s', mem')
                (skip-Yields tag.wire_type v' mem' s' h') h'))
          (skip-Yields tag.wire_type v' mem s h')

    unknown-Yields :
        (tag : Tag) (v : Locals) (it : Iter) (mem : Memory) (s : IStream)
        → Lacks fields i v
        → IsIndexed fields it
        → Yields (Lacks fields i) (dispatch field extension counter tag v (some (it, false)) mem s)
    unfolding dispatch
    unknown-Yields tag v it mem s h k =
        let h' = moved-Lacks v it v.extension_range_start h k in
        if-Yields (Lacks fields i) (leb v.extension_range_start tag.tag) _ _
          (try-Yields tag (record v { it = it }) (find_extension_field it) mem s h'
            (find_extension_field-LeavesIndexed fields word it k))
          (skip-Yields tag.wire_type (record v { it = it }) mem s h')

    found-Yields :
        (tag : Tag) (v : Locals) (it : Iter) (mem : Memory) (s : IStream)
        → Lacks fields i v
        → IsIndexed fields it
        → it.pos ≢ i
        → Yields (Lacks fields i) (dispatch field extension counter tag v (some (it, true)) mem s)
    unfolding dispatch
    found-Yields tag v it mem s h k apart =
        known-Yields tag.wire_type (record v { it = it }) mem s
          (moved-Lacks v it v.extension_range_start h k) apart

    subst_found :
        {r : Option (Iter × Bool)} {it : Iter} {b : Bool}
        → r ≡ some (it, b)
        → LeavesIndexed fields word r
        → IsIndexed fields it
    subst_found e h = simp e at h

    from_result :
        {r : Result Locals} {v : Locals} {u : IStream} {mem : Memory}
        → r ≡ (ok v u, mem)
        → Yields (Lacks fields i) r
        → Lacks fields i v
    from_result e h = simp e at h

    -- Without the field, its mark stays away.
    pub Reads-Lacks :
        {v w : Locals} {mem m : Memory} {s u : IStream} {ps : List ℕ}
        → Reads field extension counter v mem s ps w m u
        → Lacks fields i v
        → occurs i ps ≡ false
        → Lacks fields i w
    Reads-Lacks stop h o = h
    Reads-Lacks (known {v} {v'} {mem} {mem'} {s} {t} {s'} {tag} {it} e f d rest) h o =
        let k : IsIndexed fields it =
          subst_found f (find-LeavesIndexed fields word tag.tag v.it h.indexed) in
        Reads-Lacks rest
          (from_result d (found-Yields tag v it mem t h k (λ p. absurd (ground arith))))
          (ground arith)
    Reads-Lacks (unknown {v} {v'} {mem} {mem'} {s} {t} {s'} {tag} {it} e f d rest) h o =
        let k : IsIndexed fields it =
          subst_found f (find-LeavesIndexed fields word tag.tag v.it h.indexed) in
        Reads-Lacks rest (from_result d (unknown-Yields tag v it mem t h k)) o
