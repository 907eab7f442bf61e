-- ===== src/Pb/Decoder/Rounds/Reads.antt =====
-- The rounds of the loop of `pb_decode_noinit` as a relation, with the fields that are decoded.
use daily_diary.Base.{
  ℕ, zero, suc, ◌≡◌, ◌==◌, ◌||◌, ltb, refl, sym, Bool, true, false, Option, none, some,
}
use daily_diary.Base.{List, [], ◌∷◌}
use daily_diary.Pb.{Res, ok, fail, fault}
use daily_diary.Pb.IStream.{IStream}
use daily_diary.Pb.Decode.{Tag, pb_decode_tag}
use daily_diary.Pb.Iter.{Iter, pb_field_iter_find}
use daily_diary.Pb.Scalar.{Memory}
use daily_diary.Pb.Blobs.{Outcome}
use daily_diary.Pb.Decoder.{Result, and_with}
use daily_diary.Pb.Decoder.Rounds.{Locals, dispatch, behind_tag, message_loop}

-- Whether a field is among those that were decoded.
abbrev pub occurs : ℕ → List ℕ → Bool
occurs i [] = false
occurs i (p ∷ ps) = i == p || occurs i ps

abbrev pub FieldDecoder : Type 0
FieldDecoder = ℕ → Iter → Memory → IStream → Result Iter

abbrev pub ExtensionDecoder : Type 0
ExtensionDecoder = ℕ → ℕ → Iter → Memory → IStream → Outcome

-- The rounds from one state of the loop to another, and the positions of the fields that they
-- decode. A round reads a tag, and finds a field of the message or not.
pub data Reads (field : FieldDecoder) (extension : ExtensionDecoder) (counter : ℕ)
    : Locals → Memory → IStream → List ℕ → Locals → Memory → IStream → Type 0 where
  stop :
      {v : Locals} {mem : Memory} {s : IStream} → Reads field extension counter v mem s [] v mem s
  known :
      {v v' w : Locals} {mem mem' m : Memory} {s t s' u : IStream} {tag : Tag} {eof : Bool}
      {it : Iter} {ps : List ℕ}
      → pb_decode_tag s ≡ (ok tag t, eof)
      → pb_field_iter_find tag.tag v.it ≡ some (it, true)
      → dispatch field extension counter tag v (some (it, true)) mem t ≡ (ok v' s', mem')
      → Reads field extension counter v' mem' s' ps w m u
      → Reads field extension counter v mem s (it.pos ∷ ps) w m u
  unknown :
      {v v' w : Locals} {mem mem' m : Memory} {s t s' u : IStream} {tag : Tag} {eof : Bool}
      {it : Iter} {ps : List ℕ}
      → pb_decode_tag s ≡ (ok tag t, eof)
      → pb_field_iter_find tag.tag v.it ≡ some (it, false)
      → dispatch field extension counter tag v (some (it, false)) mem t ≡ (ok v' s', mem')
      → Reads field extension counter v' mem' s' ps w m u
      → Reads field extension counter v mem s ps w m u

module _ (field : FieldDecoder) (extension : ExtensionDecoder) (counter : ℕ) where
  -- What a result of the loop means; the end is a stream that is empty, or one on a tag of 0 or
  -- without a byte.
  abbrev pub IsRead : Locals → Memory → IStream → Result Locals → Type 0
  IsRead v mem s (ok w u, m) =
      (ps : List ℕ) × (t : IStream) × Reads field extension counter v mem s ps w m t
  IsRead v mem s (fail u, m) = Unit {0}
  IsRead v mem s (fault, m) = Unit {0}

  module _ (rounds : ℕ)
      (again : (v : Locals) (mem : Memory) (s : IStream)
        → IsRead v mem s (message_loop field extension counter rounds v mem s)) where
    dispatched :
        (v : Locals) (mem : Memory) (s : IStream) (tag : Tag) (eof : Bool) (t : IStream)
        (found : Option (Iter × Bool)) (r : Result Locals)
        → pb_decode_tag s ≡ (ok tag t, eof)
        → pb_field_iter_find tag.tag v.it ≡ found
        → dispatch field extension counter tag v found mem t ≡ r
        → IsRead v mem s (and_with r (message_loop field extension counter rounds))
    unfolding and_with dispatch
    dispatched v mem s tag eof t none r e f d = rw (sym d) tt
    dispatched v mem s tag eof t (some (it, b)) (fail u, m) e f d = tt
    dispatched v mem s tag eof t (some (it, b)) (fault, m) e f d = tt
    dispatched v mem s tag eof t (some (it, true)) (ok v' u, m) e f d =
        prepend (message_loop field extension counter rounds v' m u) (again v' m u)
      where
        prepend : (r : Result Locals) → IsRead v' m u r → IsRead v mem s r
        prepend (ok w x, n) (ps, y, h) = (it.pos ∷ ps, y, known e f d h)
        prepend (fail x, n) h = tt
        prepend (fault, n) h = tt
    dispatched v mem s tag eof t (some (it, false)) (ok v' u, m) e f d =
        prepend (message_loop field extension counter rounds v' m u) (again v' m u)
      where
        prepend : (r : Result Locals) → IsRead v' m u r → IsRead v mem s r
        prepend (ok w x, n) (ps, y, h) = (ps, y, unknown e f d h)
        prepend (fail x, n) h = tt
        prepend (fault, n) h = tt

    tagged :
        (v : Locals) (mem : Memory) (s : IStream) (r : Res IStream Tag × Bool)
        → pb_decode_tag s ≡ r
        → IsRead v mem s (
            behind_tag field extension counter r v mem
              (message_loop field extension counter rounds))
    unfolding behind_tag
    tagged v mem s (ok tag t, eof) e = dispatched v mem s tag eof t _ _ e refl refl
    tagged v mem s (fail t, true) e = ([], s, stop)
    tagged v mem s (fail t, false) e = tt
    tagged v mem s (fault, eof) e = tt

  -- The loop is a run of the relation.
  pub message_loop-IsRead :
      (rounds : ℕ) (v : Locals) (mem : Memory) (s : IStream)
      → IsRead v mem s (message_loop field extension counter rounds v mem s)
  unfolding message_loop
  message_loop-IsRead zero v mem s = tt
  message_loop-IsRead (suc rounds) v mem s =
      either (ltb 0 s.bytes_left) _
        (tagged rounds (message_loop-IsRead rounds) v mem s (pb_decode_tag s) refl)
    where
      either :
          (c : Bool) (r : Result Locals)
          → IsRead v mem s r
          → IsRead v mem s (elim c [ true ↦ r | false ↦ (ok v s, mem) ])
      either true r h = h
      either false r h = ([], s, stop)
