-- ===== src/Pb/Static/Rounds.antt =====
-- The loop over a packed array has rounds enough.
use daily_diary.Base.{
  ℕ, zero, suc, ◌+◌, ◌*◌, ◌/◌, ◌%◌, ◌^◌, ◌≤◌, ◌<◌, ◌≡◌, refl, sym, ap, ◌∙◌, arith, inl, inr, ◌⊎◌,
}
use daily_diary.Base.{u32, Bool, Bool-cases, true, false, ltb, ◌==◌, ◌&&◌, if◌then◌else◌}
use daily_diary.Pb.{Field, ok, fail, fault}
use daily_diary.Pb.IStream.{IStream}
use daily_diary.Pb.Scalar.{Memory, load, store}
use daily_diary.Pb.Scalar.Store.{IsOutside, store-outside}
use daily_diary.Pb.Blobs.{Outcome, and_then}
use daily_diary.Pb.Static.{ItemDecoder, item_address, count_up, packed_loop}
use daily_diary.Pb.Static.Bounds.{IsConfined, HasRoom, item-IsOutside}

-- The memory with one byte of a number stored.
abbrev put : ℕ → ℕ → Memory → Memory
put v a mem x = if x == a then v % 256 else mem x

load_nothing : (a : ℕ) (mem : Memory) → load 0 a mem ≡ 0
unfolding load
load_nothing a mem = refl

load-store_step :
    (size v a : ℕ) (mem : Memory)
    → load (suc size) a (store (suc size) v a mem)
      ≡ v % 256 + 256 * load size (suc a) (store size (v / 256) (suc a) (put v a mem))
unfolding load store
load-store_step size v a mem =
    ap (λ b. b + 256 * load size (suc a) (store size (v / 256) (suc a) (put v a mem)))
      (store-outside size (v / 256) (suc a) (put v a mem) a (inl (omega arith)) ∙ here)
  where
    here : (if a == a then v % 256 else mem a) ≡ v % 256
    here = ground arith

load-store : (v a : ℕ) (mem : Memory) → v < 2 ^ 32 → load 4 a (store 4 v a mem) ≡ v
load-store v a mem h =
    let mem1 = put v a mem in
    let mem2 = put (v / 256) (suc a) mem1 in
    let mem3 = put (v / 256 / 256) (suc (suc a)) mem2 in
    let mem4 = put (v / 256 / 256 / 256) (suc (suc (suc a))) mem3 in
    omega (
      arith,
      load-store_step 3 v a mem,
      load-store_step 2 (v / 256) (suc a) mem1,
      load-store_step 1 (v / 256 / 256) (suc (suc a)) mem2,
      load-store_step 0 (v / 256 / 256 / 256) (suc (suc (suc a))) mem3,
      load_nothing (suc (suc (suc (suc a))))
          (store 0 (v / 256 / 256 / 256 / 256) (suc (suc (suc (suc a)))) mem4),
    )

load-same :
    (size a : ℕ) (mem mem' : Memory)
    → ((x : ℕ) → a ≤ x → x < a + size → mem' x ≡ mem x)
    → load size a mem' ≡ load size a mem
unfolding load
load-same zero a mem mem' h = refl
load-same (suc size) a mem mem' h =
    let first : mem' a ≡ mem a = h a (omega arith) (omega arith) in
    let rest : load size (suc a) mem' ≡ load size (suc a) mem =
      load-same size (suc a) mem mem' (λ x lo hi. h x (omega arith) (omega arith)) in
    omega (arith, first, rest)

-- The two storages do not overlap.
abbrev pub AreApart : ℕ → ℕ → ℕ → Type 0
AreApart pdata n psize = (psize + 4 ≤ pdata) ⊎ (pdata + n ≤ psize)

apart-IsOutside :
    (pdata n psize x : ℕ) → AreApart pdata n psize → psize ≤ x → x < psize + 4 → IsOutside pdata n x
apart-IsOutside pdata n psize x (inl before) lo hi = inl (omega arith)
apart-IsOutside pdata n psize x (inr behind) lo hi = inr (omega arith)

module _ (field : Field) (pdata psize n : ℕ) (room : HasRoom field pdata n)
    (apart : AreApart pdata n psize) (item : ItemDecoder)
    (confined : (s : IStream) → IsConfined field.data_size (λ a mem. (item a mem s).1)) where
  count_kept :
      (mem : Memory) (s : IStream) (i : ℕ)
      → i < field.array_size
      → load 4 psize (item (item_address field pdata i) mem s).1 ≡ load 4 psize mem
  count_kept mem s i h =
      load-same 4 psize mem (item (item_address field pdata i) mem s).1 (λ x lo hi.
        confined s (item_address field pdata i) mem x
          (item-IsOutside field pdata n room x (apart-IsOutside pdata n psize x apart lo hi) i h))

  abbrev goes_on : Memory → IStream → Bool
  goes_on mem sub = ltb 0 sub.bytes_left && ltb (load 4 psize mem) field.array_size

  loop_stops :
      (rounds : ℕ) (mem : Memory) (sub : IStream)
      → goes_on mem sub ≡ false
      → packed_loop (suc rounds) item field pdata psize mem sub ≡ (ok tt sub, mem)
  unfolding packed_loop
  loop_stops rounds mem sub c = rw (c, packed_loop, goes_on) refl

  loop_goes_on :
      (rounds : ℕ) (mem : Memory) (sub : IStream)
      → goes_on mem sub ≡ true
      → packed_loop (suc rounds) item field pdata psize mem sub
        ≡ and_then
            (item (item_address field pdata (load 4 psize mem)) mem sub)
            (λ mem' sub'. packed_loop rounds item field pdata psize (count_up psize mem') sub')
  unfolding packed_loop
  loop_goes_on rounds mem sub c = rw (c, packed_loop, goes_on) refl

  and_then-same :
      (r : Outcome) (k k' : Memory → IStream → Outcome)
      → ((s : IStream) → k r.1 s ≡ k' r.1 s)
      → and_then r k ≡ and_then r k'
  unfolding and_then
  and_then-same (ok _ s, mem') k k' e = e s
  and_then-same (fail s, mem') k k' e = refl
  and_then-same (fault, mem') k k' e = refl

  -- Where the count of a packed array does not overlap its storage, and the decoder of an entry
  -- changes only that entry, the loop over the substream does the same with any two numbers of
  -- rounds that are more than the entries the array has room for.
  pub packed_loop_rounds_enough :
      (rounds rounds' : ℕ) (mem : Memory) (sub : IStream)
      → field.array_size < 2 ^ 32
      → field.array_size ≤ load 4 psize mem + rounds
      → field.array_size ≤ load 4 psize mem + rounds'
      → packed_loop (suc rounds) item field pdata psize mem sub
        ≡ packed_loop (suc rounds') item field pdata psize mem sub
  packed_loop_rounds_enough zero rounds' mem sub w h h' =
      let stops : goes_on mem sub ≡ false = ground arith in
      loop_stops zero mem sub stops ∙ sym (loop_stops rounds' mem sub stops)
  packed_loop_rounds_enough (suc rounds) zero mem sub w h h' =
      let stops : goes_on mem sub ≡ false = ground arith in
      loop_stops (suc rounds) mem sub stops ∙ sym (loop_stops zero mem sub stops)
  packed_loop_rounds_enough (suc rounds) (suc rounds') mem sub w h h' =
      elim (Bool-cases (goes_on mem sub)) [
        | inr stops ↦
            loop_stops (suc rounds) mem sub stops ∙ sym (loop_stops (suc rounds') mem sub stops)
        | inl on ↦
            let less : load 4 psize mem < field.array_size = ground arith in
            let mem' = (item (item_address field pdata (load 4 psize mem)) mem sub).1 in
            let kept = count_kept mem sub (load 4 psize mem) less in
            let one_more : load 4 psize (count_up psize mem') ≡ load 4 psize mem + 1 =
              load-store (u32 (load 4 psize mem' + 1)) psize mem' (omega arith)
              ∙ omega (arith, kept) in
            loop_goes_on (suc rounds) mem sub on
            ∙ and_then-same (item (item_address field pdata (load 4 psize mem)) mem sub) _ _ (λ s.
              packed_loop_rounds_enough rounds rounds' (count_up psize mem') s w (omega arith)
                (omega arith))
            ∙ sym (loop_goes_on (suc rounds') mem sub on)
      ]
