-- ===== src/Pb/Encode/Varint.antt =====
-- What `pb_encode_varint` hands to `pb_write`.
use daily_diary.Base.{ℕ, zero, suc, ◌+◌, ◌/◌, ◌%◌, ◌^◌, ◌≤◌, ◌<◌, ◌≡◌, refl, ap, ◌∙◌, arith}
use daily_diary.Base.{
  inl, inr, Bool-cases, leb, List, [], ◌∷◌, length, some, ltb, if◌then◌else◌, bit_and, bit_or, u8,
  IsU32, IsU64,
}
use daily_diary.Base.{and_7f, or_80, bit_and_mask}
use daily_diary.Pb.OStream.{OStream, bytes, pb_write}
use daily_diary.Pb.Decode.Varint.{IsVarint, varint_value}
use daily_diary.Pb.Encode.{fill_groups, unset_last, pb_encode_varint}

-- The groups of seven bits of a number below `128 ^ (k + 1)`, the lowest first.
unfoldable pub groups : ℕ → ℕ → List ℕ
groups zero v = v ∷ []
groups (suc k) v =
    let more = groups k (v / 128) in if ltb v 128 then v ∷ [] else (v % 128 + 128) ∷ more

-- A uint64 in as many bytes as it needs.
unfoldable pub encoding : ℕ → List ℕ
encoding v = groups 9 v

inner_group : (v : ℕ) → u8 (bit_or (bit_and v 0x7f) 0x80) ≡ v % 128 + 128
inner_group v =
    omega (arith, ap (λ (t : ℕ). bit_or t 0x80) (bit_and_mask 7 v), or_80 (v % 128) (omega arith))

fill_groups-zero : (room v : ℕ) → v ≡ 0 → fill_groups room v ≡ some []
unfolding fill_groups
fill_groups-zero room zero h = refl
fill_groups-zero room (suc v) h = absurd (omega arith)

fill_groups-step :
    (room v : ℕ) {bs : List ℕ}
    → 0 < v
    → fill_groups room (v / 128) ≡ some bs
    → fill_groups (suc room) v ≡ some ((v % 128 + 128) ∷ bs)
unfolding fill_groups
fill_groups-step room zero pos e = absurd (omega arith)
fill_groups-step room (suc v) pos e = ground (arith, inner_group (suc v))

unset_last-cons : (b : ℕ) (bs : List ℕ) → 0 < length bs → unset_last (b ∷ bs) ≡ b ∷ unset_last bs
unfolding unset_last
unset_last-cons b [] h = absurd (omega arith)
unset_last-cons b (c ∷ bs) h = refl

unset_last-one : (v : ℕ) → v < 128 → unset_last ((v % 128 + 128) ∷ []) ≡ v ∷ []
unfolding unset_last
unset_last-one v h = ground (arith, and_7f (v % 128 + 128))

-- The array as the loop leaves it: below `128 ^ room` it does not overflow.
record Filled (room k v : ℕ) : Type 0 where
  filled : List ℕ
  fits : fill_groups room v ≡ some filled
  masked : unset_last filled ≡ groups k v
  some_byte : 0 < length filled

fill_groups-Filled : (k v : ℕ) → 0 < v → v < 128 ^ suc k → Filled (suc k) k v
unfolding groups
fill_groups-Filled zero v pos h = record {
  filled = (v % 128 + 128) ∷ [];
  fits = fill_groups-step 0 v pos (fill_groups-zero 0 (v / 128) (omega arith));
  masked = unset_last-one v (omega arith);
  some_byte = omega arith;
}
fill_groups-Filled (suc k) v pos h = elim (Bool-cases (ltb v 128)) [
  | inl small ↦ record {
    filled = (v % 128 + 128) ∷ [];
    fits = fill_groups-step _ v pos (fill_groups-zero _ (v / 128) (ground arith));
    masked = rw small (unset_last-one v (ground arith));
    some_byte = omega arith;
  }
  | inr large ↦
      let rest = fill_groups-Filled k (v / 128) (ground arith) (omega arith) in
      record {
        filled = (v % 128 + 128) ∷ rest.filled;
        fits = fill_groups-step _ v pos rest.fits;
        masked =
            rw large
              (unset_last-cons _ _ rest.some_byte ∙ ap (λ t. (v % 128 + 128) ∷ t) rest.masked);
        some_byte = omega arith;
      }
]

groups-small : (k v : ℕ) → v < 128 → groups k v ≡ v ∷ []
unfolding groups
groups-small zero v h = refl
groups-small (suc k) v h = ground arith

-- For a uint64 `pb_encode_varint` is one `pb_write` of the shortest varint of the number: the
-- array of ten bytes is large enough.
pub pb_encode_varint-encoding :
    (v : ℕ) (s : OStream) → IsU64 v → pb_encode_varint v s ≡ pb_write (bytes (encoding v)) s
unfolding pb_encode_varint encoding
pb_encode_varint-encoding v s h = elim (Bool-cases (leb v 0x7f)) [
  | inl small ↦
      rw (small, groups-small 9 v (ground arith))
        (ap (λ b. pb_write (bytes (b ∷ [])) s) (ground arith))
  | inr large ↦
      let rest = fill_groups-Filled 9 v (ground arith) (omega arith) in
      rw (large, rest.fits, rest.masked)
]

length-groups : (k v : ℕ) → (1 ≤ length (groups k v)) × (length (groups k v) ≤ k + 1)
unfolding groups
length-groups zero v = omega arith
length-groups (suc k) v = ground (arith, length-groups k (v / 128))

pub length-encoding : (v : ℕ) → (1 ≤ length (encoding v)) × (length (encoding v) ≤ 10)
unfolding encoding
length-encoding v = length-groups 9 v

length-groups_small : (j k v : ℕ) → j ≤ k → v < 128 ^ suc j → length (groups k v) ≤ j + 1
unfolding groups
length-groups_small j zero v h small = omega arith
length-groups_small zero (suc k) v h small = ground arith
length-groups_small (suc j) (suc k) v h small =
    ground (arith, length-groups_small j k (v / 128) (omega arith) (omega arith))

-- A uint32 takes five bytes at most.
pub length-encoding32 : (v : ℕ) → IsU32 v → length (encoding v) ≤ 5
unfolding encoding
length-encoding32 v h = length-groups_small 4 9 v (omega arith) (omega arith)

cons-IsVarint : (b : ℕ) (bs : List ℕ) → 128 ≤ b → b < 256 → IsVarint bs → IsVarint (b ∷ bs)
cons-IsVarint b [] lo hi h = absurd h
cons-IsVarint b (c ∷ bs) lo hi h = (lo, hi, h)

groups-IsVarint : (k v : ℕ) → v < 128 ^ suc k → IsVarint (groups k v)
unfolding groups
groups-IsVarint zero v h = omega arith
groups-IsVarint (suc k) v h = elim (Bool-cases (ltb v 128)) [
  | inl small ↦ rw small (ground arith)
  | inr large ↦
      rw large
        (cons-IsVarint _ _ (omega arith) (omega arith) (groups-IsVarint k (v / 128) (omega arith)))
]

pub encoding-IsVarint : (v : ℕ) → IsU64 v → IsVarint (encoding v)
unfolding encoding
encoding-IsVarint v h = groups-IsVarint 9 v (omega arith)

varint_value-groups : (k v : ℕ) → v < 128 ^ suc k → varint_value (groups k v) ≡ v
unfolding groups
varint_value-groups zero v h = omega arith
varint_value-groups (suc k) v h = ground (arith, varint_value-groups k (v / 128) (omega arith))

pub varint_value-encoding : (v : ℕ) → IsU64 v → varint_value (encoding v) ≡ v
unfolding encoding
varint_value-encoding v h = varint_value-groups 9 v (omega arith)
