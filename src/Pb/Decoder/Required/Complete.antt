-- ===== src/Pb/Decoder/Required/Complete.antt =====
-- A message that `pb_decode_noinit` accepts has its required fields.
use native.Mathlib.Decide.{dec_le}
use daily_diary.Base.{ℕ, zero, suc, ◌^◌, ◌<◌, ◌≡◌, refl, sym, ap, arith}
use daily_diary.Base.{agree_below, check_below, Bool, true, false, Bool-cases, inl, inr}
use daily_diary.Base.{List, [], ◌∷◌, length, Option, none, some}
use daily_diary.Pb.{Field, ok, fail, fault}
use daily_diary.Pb.IStream.{IStream}
use daily_diary.Pb.Iter.{Iter, field_at, pb_field_iter_begin, pb_field_iter_next}
use daily_diary.Pb.Iter.Index.{next_goes_on}
use daily_diary.Pb.Iter.Index.{is_required, required_before, required_before-less, IsIndexed}
use daily_diary.Pb.Iter.Index.{next-IsIndexed, one_more}
use daily_diary.Pb.Scalar.{Memory, store}
use daily_diary.Pb.Decoder.{DecodeEnv, Result, and_with}
use daily_diary.Pb.Blobs.{Outcome}
use daily_diary.Pb.Decoder.Fields.Index.{Yields, decode_field-Yields}
use daily_diary.Pb.Decoder.Required.{FieldsEnd, seek_end, required_count, all_seen}
use daily_diary.Pb.Decoder.Required.Marks.{mark_of, all_seen-mark_of}
use daily_diary.Pb.Decoder.Required.Present.{Lacks, Reads-Lacks}
use daily_diary.Pb.Decoder.Rounds.{Locals, first_locals, is_wrong_size, check_required}
use daily_diary.Pb.Decoder.Rounds.{finish_message, decode_message}
use daily_diary.Pb.Decoder.Rounds.Reads.{FieldDecoder, ExtensionDecoder, Reads, IsRead, occurs}
use daily_diary.Pb.Decoder.Rounds.Reads.{message_loop-IsRead}
use daily_diary.Pb.Decoder.Release.{pb_release_single_field}
use daily_diary.Pb.Decoder.Messages.{
  pb_decoders, defaults_at, field_decoder, extension_decoder, pb_decode_noinit,
}

-- A result of true, where `P` holds of the memory.
abbrev Accepts : (Memory → Type 0) → Outcome → Type 0
Accepts P (ok u s, mem) = P mem
Accepts P (fail s, mem) = Unit {0}
Accepts P (fault, mem) = Unit {0}

Accepts-map :
    {P Q : Memory → Type 0}
    → ((mem : Memory) → P mem → Q mem)
    → (r : Outcome) → Accepts P r
    → Accepts Q r
Accepts-map f (ok u s, mem) p = f mem p
Accepts-map f (fail s, mem) p = tt
Accepts-map f (fault, mem) p = tt

-- The rounds of a message that is accepted, up to the memory it leaves, decode the field `i`.
abbrev pub DecodesField :
    FieldDecoder → ExtensionDecoder → ℕ → List Field → ℕ → ℕ → Memory → IStream → Memory → Type 0
DecodesField field extension counter fields i dest mem s mem' =
    (ps : List ℕ) × (w : Locals) × (t : IStream) × Reads field extension counter
      (first_locals fields dest) (store 4 0 counter mem) s ps w mem' t
    × (occurs i ps ≡ true)

module _ (fields : List Field) (word : length fields < 2 ^ 32) (i : ℕ) (inside : i < length fields)
    (required : is_required (field_at fields i) ≡ true)
    (early : required_before fields i < 64) where
  -- The required field `i` is one of those that are counted.
  CountsPast : Option FieldsEnd → Type 0
  CountsPast none = Unit {0}
  CountsPast (some end) = required_before fields i < required_count end

  end-CountsPast :
      (it : Iter)
      → IsIndexed fields it
      → suc it.pos ≡ length fields
      → CountsPast (
          some (record {
            req_field_count = it.required_field_index;
            last_type = (field_at it.start it.pos).type;
            it = (pb_field_iter_next it).0;
          }))
  unfolding required_count CountsPast
  end-CountsPast it h last =
      let on = h.is_iter.on_field in
      let next = next-IsIndexed fields word it h in
      let tagged = next.is_iter.tagged _ next.is_iter.on_field in
      let at : field_at it.start it.pos ≡ field_at fields it.pos =
        ap (λ fs. field_at fs it.pos) h.same in
      let counted =
        one_more fields it.required_field_index it.pos (is_required (field_at it.start it.pos))
          (omega arith) word h.index (ap is_required (sym at)) in
      let whole = required_before-less fields i (suc it.pos) (omega arith) (omega arith) required in
      ground arith

  seek_end-CountsPast :
      (rounds : ℕ) (it : Iter) → IsIndexed fields it → CountsPast (seek_end rounds it)
  unfolding seek_end CountsPast
  seek_end-CountsPast zero it h = tt
  seek_end-CountsPast (suc rounds) it h =
      more ((pb_field_iter_next it).1) refl
        (seek_end-CountsPast rounds _ (next-IsIndexed fields word it h))
    where
      more :
          (c : Bool)
          → (pb_field_iter_next it).1 ≡ c
          → CountsPast (seek_end rounds (pb_field_iter_next it).0)
          → CountsPast (elim c [
            | true ↦ seek_end rounds (pb_field_iter_next it).0
            | false ↦ some (record {
              req_field_count = it.required_field_index;
              last_type = (field_at it.start it.pos).type;
              it = (pb_field_iter_next it).0;
            })
          ])
      more true e rest = rest
      more false e rest = elim (dec_le (suc (suc it.pos)) (length it.start)) [
        | yes inner ↦ absurd (ground (arith, next_goes_on it h.is_iter inner))
        | no last ↦
            let on = h.is_iter.on_field in
            let size : length it.start ≡ length fields = ap (λ fs. length fs) h.same in
            end-CountsPast it h (omega arith)
      ]

  module _ (field : FieldDecoder) (extension : ExtensionDecoder) (counter : ℕ)
      (keeps : (wire_type : ℕ) (it : Iter) (mem : Memory) (s : IStream)
        → IsIndexed fields it
        → Yields (IsIndexed fields) (field wire_type it mem s)) where
    abbrev HasMark : Locals → Memory → Memory → Type 0
    HasMark w mem mem' = (mark_of (required_before fields i) w.fields_seen ≡ 1) × (mem' ≡ mem)

    check-Accepts :
        (w : Locals) (end : Option FieldsEnd) (mem : Memory) (s : IStream)
        → CountsPast end
        → Accepts (HasMark w mem) (check_required field extension counter end w.fields_seen mem s)
    unfolding check_required CountsPast
    check-Accepts w none mem s h = tt
    check-Accepts w (some end) mem s h =
        elim (Bool-cases (all_seen (required_count end) w.fields_seen)) [
          | inl c ↦ rw c (all_seen-mark_of (required_count end) _ w.fields_seen c h, refl)
          | inr c ↦ rw c tt
        ]

    finish-Accepts :
        (w : Locals) (mem : Memory) (s : IStream)
        → IsIndexed fields w.it
        → Accepts (HasMark w mem) (finish_message field extension counter w mem s)
    unfolding finish_message
    finish-Accepts w mem s h =
        elim (Bool-cases (is_wrong_size counter w.it w.fixed_count_field mem)) [
          | inl c ↦ rw c tt
          | inr c ↦
              rw c (check-Accepts w _ mem s (seek_end-CountsPast (suc (length w.it.start)) w.it h))
        ]

    check-same :
        (seen : List ℕ) (end : Option FieldsEnd) (mem : Memory) (s : IStream)
        → Accepts (λ m. m ≡ mem) (check_required field extension counter end seen mem s)
    unfolding check_required
    check-same seen none mem s = tt
    check-same seen (some end) mem s = elim (Bool-cases (all_seen (required_count end) seen)) [
      | inl c ↦ rw c refl
      | inr c ↦ rw c tt
    ]

    finish-same :
        (w : Locals) (mem : Memory) (s : IStream)
        → Accepts (λ m. m ≡ mem) (finish_message field extension counter w mem s)
    unfolding finish_message
    finish-same w mem s = elim (Bool-cases (is_wrong_size counter w.it w.fixed_count_field mem)) [
      | inl c ↦ rw c tt
      | inr c ↦ rw c (check-same w.fields_seen _ mem s)
    ]

    loop-Accepts :
        (dest : ℕ) (mem : Memory) (s : IStream) (r : Result Locals)
        → Lacks fields i (first_locals fields dest)
        → IsRead field extension counter (first_locals fields dest) (store 4 0 counter mem) s r
        → Accepts
            (DecodesField field extension counter fields i dest mem s)
            (and_with r (finish_message field extension counter))
    unfolding and_with
    loop-Accepts dest mem s (ok w u, m) h (ps, t, reads) = elim (Bool-cases (occurs i ps)) [
      | inl c ↦
          Accepts-map (λ m' same. (ps, w, t, rw same reads, c))
            (finish_message field extension counter w m u) (finish-same w m u)
      | inr c ↦
          let lacks =
            Reads-Lacks fields word i inside required early field extension counter keeps reads h
              c in
          let none = lacks.unmarked in
          Accepts-map (λ m' (marked, same). absurd (omega arith))
            (finish_message field extension counter w m u) (finish-Accepts w m u lacks.indexed)
    ]
    loop-Accepts dest mem s (fail u, m) h reads = tt
    loop-Accepts dest mem s (fault, m) h reads = tt

module _ (fields : List Field) (word : length fields < 2 ^ 32)
    (tagged : (j : ℕ) → j < length fields → 0 < (field_at fields j).tag) (i : ℕ)
    (inside : i < length fields) where
  first-IsIndexed : (dest : ℕ) → IsIndexed fields (pb_field_iter_begin fields dest).0
  unfolding pb_field_iter_begin required_before
  first-IsIndexed dest = record {
    same = refl;
    is_iter = record { on_field = omega arith; tagged = tagged };
    index = refl;
  }

  no_mark : (k : ℕ) → k < 64 → mark_of k (0 ∷ 0 ∷ []) ≡ 0
  unfolding check_below
  no_mark = agree_below 64 (λ k. mark_of k (0 ∷ 0 ∷ [])) (λ k. 0) refl

  first-Lacks :
      (dest : ℕ) → required_before fields i < 64 → Lacks fields i (first_locals fields dest)
  first-Lacks dest early = record {
    indexed = first-IsIndexed dest;
    words = refl;
    unmarked = no_mark _ early;
  }

  module _ (depth : ℕ) (host : DecodeEnv) where
    -- For a message of fewer than 2 ^ 32 fields, none with the tag 0, and a required field `i` with
    -- fewer than 64 required fields before it: if `pb_decode_noinit` returns true, then the rounds
    -- of its loop over the stream, up to the memory that it leaves, decode the field `i`.
    pub pb_decode_noinit-decodes_required :
        (dest : ℕ) (mem mem' : Memory) (s s' : IStream)
        → is_required (field_at fields i) ≡ true
        → required_before fields i < 64
        → pb_decode_noinit (suc depth) host fields dest mem s ≡ (ok tt s', mem')
        → DecodesField
            (field_decoder depth host (pb_decode_noinit depth host))
            (extension_decoder depth host (pb_decode_noinit depth host))
            (host.fixed_count_at depth)
            fields
            i
            dest
            mem
            s
            mem'
    unfolding pb_decode_noinit decode_message
    pb_decode_noinit-decodes_required dest mem mem' s s' required early e = simp e at (
        loop-Accepts fields word i inside required early
          (field_decoder depth host (pb_decode_noinit depth host))
          (extension_decoder depth host (pb_decode_noinit depth host)) (host.fixed_count_at depth)
          (decode_field-Yields fields word host
            (pb_decoders host depth (pb_decode_noinit depth host)) (defaults_at host depth)
            (pb_release_single_field host.pb_free depth host.env))
          dest mem s _ (first-Lacks dest early)
          (message_loop-IsRead _ _ _ (suc s.bytes_left) (first_locals fields dest)
            (store 4 0 (host.fixed_count_at depth) mem) s))
