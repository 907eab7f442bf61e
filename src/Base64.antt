-- ===== src/Base64.antt =====
-- fbase64.c of FirebaseDatabase: `f_b64_ntop` and `f_b64_pton`. An array is the list of its bytes;
-- a result of type int is its bit pattern, and -1 is `fail`.
pub mod Print
pub mod Short
pub mod Parse
pub mod Groups
pub mod RoundTrip
pub mod Bounds
use daily_diary.Base.{ℕ, zero, suc, ◌+◌, ◌-◌, ◌*◌, ◌/◌, ◌^◌, List, [], ◌∷◌, ◌++◌, length, get_or}
use daily_diary.Base.{
  set, take, drop, bit_and, bit_or, u8, u32, u64, Bool, true, false, ◌&&◌, ◌||◌, not,
}
use daily_diary.Base.{ltb, leb, ◌==◌, if◌then◌else◌, Option, none, some, Res, ok, fail, fault}

-- `Base64` without its terminator, in ASCII.
abbrev pub alphabet : List ℕ
alphabet =
    65 ∷ 66 ∷ 67 ∷ 68 ∷ 69 ∷ 70 ∷ 71 ∷ 72 ∷ 73 ∷ 74 ∷ 75 ∷ 76 ∷ 77 ∷ 78 ∷ 79 ∷ 80 ∷ 81 ∷ 82 ∷ 83
    ∷ 84 ∷ 85 ∷ 86 ∷ 87 ∷ 88 ∷ 89 ∷ 90 ∷ 97 ∷ 98 ∷ 99 ∷ 100 ∷ 101 ∷ 102 ∷ 103 ∷ 104 ∷ 105 ∷ 106
    ∷ 107 ∷ 108 ∷ 109 ∷ 110 ∷ 111 ∷ 112 ∷ 113 ∷ 114 ∷ 115 ∷ 116 ∷ 117 ∷ 118 ∷ 119 ∷ 120 ∷ 121 ∷ 122
    ∷ 48 ∷ 49 ∷ 50 ∷ 51 ∷ 52 ∷ 53 ∷ 54 ∷ 55 ∷ 56 ∷ 57 ∷ 43 ∷ 47 ∷ []

abbrev pub pad64 : ℕ
pad64 = 61

-- `Base64[k]`, for `k` below 64.
unfoldable pub letter : ℕ → ℕ
letter k = get_or alphabet k 0

-- The bytes `output[0]` to `output[3]`.
abbrev pub output0 : ℕ → ℕ
output0 a = a / 2 ^ 2

abbrev pub output1 : ℕ → ℕ → ℕ
output1 a b = u8 (bit_and a 0x03 * 2 ^ 4 + b / 2 ^ 4)

abbrev pub output2 : ℕ → ℕ → ℕ
output2 b c = u8 (bit_and b 0x0f * 2 ^ 2 + c / 2 ^ 6)

abbrev pub output3 : ℕ → ℕ
output3 c = bit_and c 0x3f

-- Stores in a row, `target[i++] = ...`, into the caller's array.
pub store_all : ℕ → List ℕ → List ℕ → Option (List ℕ)
store_all i bs target =
    if leb (i + length bs) (length target)
    then some (take i target ++ (bs ++ drop (i + length bs) target))
    else none

pub stored : ℕ → Option (List ℕ) → Res (List ℕ) ℕ
stored datalength none = fault
stored datalength (some target) = ok datalength target

-- `if (datalength + 4 > targsize) return (-1);` and the four stores; the result is `datalength`.
unfoldable pub put_quad : List ℕ → ℕ → ℕ → List ℕ → Res (List ℕ) ℕ
unfolding stored store_all
put_quad quad targsize datalength target =
    if ltb targsize (u64 (datalength + 4))
    then fail target
    else stored (u64 (datalength + 4)) (store_all datalength quad target)

-- `target[datalength] = '\0'; return (int)(datalength);` and the test before.
unfoldable pub put_end : ℕ → ℕ → List ℕ → Res (List ℕ) ℕ
unfolding stored store_all
put_end targsize datalength target =
    if leb targsize datalength
    then fail target
    else stored (u32 datalength) (store_all datalength (0 ∷ []) target)

-- The one or two bytes that are left, as `input[0]` and `input[1]`.
unfoldable pub input_left : ℕ → List ℕ → Option (ℕ × ℕ)
input_left zero src = some (0, 0)
input_left (suc n) [] = none
input_left (suc zero) (a ∷ src) = some (a, 0)
input_left (suc (suc n)) (a ∷ []) = none
input_left (suc (suc n)) (a ∷ b ∷ src) = some (a, b)

abbrev pub last_quad : ℕ → ℕ × ℕ → List ℕ
last_quad srclength (a, b) =
    letter (output0 a)
    ∷ letter (output1 a b)
    ∷ (if srclength == 1 then pad64 else letter (output2 b 0))
    ∷ pad64
    ∷ []

-- From "Now we worry about padding" on.
unfoldable pub ntop_tail : List ℕ → ℕ → ℕ → ℕ → List ℕ → Res (List ℕ) ℕ
unfolding input_left
ntop_tail src srclength targsize datalength target =
    if srclength == 0 then put_end targsize datalength target else elim (input_left srclength src) [
      | none ↦ fault
      | some input ↦ elim (put_quad (last_quad srclength input) targsize datalength target) [
        | ok datalength' target' ↦ put_end targsize datalength' target'
        | fail target' ↦ fail target'
        | fault ↦ fault
      ]
    ]

abbrev pub full_quad : ℕ → ℕ → ℕ → List ℕ
full_quad a b c =
    letter (output0 a) ∷ letter (output1 a b) ∷ letter (output2 b c) ∷ letter (output3 c) ∷ []

-- `while (2 < srclength)`, and what comes behind it.
unfoldable pub ntop_loop : List ℕ → ℕ → ℕ → ℕ → List ℕ → Res (List ℕ) ℕ
ntop_loop [] srclength targsize datalength target =
    if ltb 2 srclength then fault else ntop_tail [] srclength targsize datalength target
ntop_loop (a ∷ []) srclength targsize datalength target =
    if ltb 2 srclength then fault else ntop_tail (a ∷ []) srclength targsize datalength target
ntop_loop (a ∷ b ∷ []) srclength targsize datalength target =
    if ltb 2 srclength then fault else ntop_tail (a ∷ b ∷ []) srclength targsize datalength target
ntop_loop (a ∷ b ∷ c ∷ src) srclength targsize datalength target = elim (ltb 2 srclength) [
  | false ↦ ntop_tail (a ∷ b ∷ c ∷ src) srclength targsize datalength target
  | true ↦ elim (put_quad (full_quad a b c) targsize datalength target) [
    | ok datalength' target' ↦ ntop_loop src (srclength - 3) targsize datalength' target'
    | fail target' ↦ fail target'
    | fault ↦ fault
  ]
]

unfoldable pub f_b64_ntop : List ℕ → ℕ → ℕ → List ℕ → Res (List ℕ) ℕ
f_b64_ntop src srclength targsize target = ntop_loop src srclength targsize 0 target

-- `isspace` on an ASCII character, in the C locale.
abbrev pub isspace : ℕ → Bool
isspace ch = ch == 32 || (leb 9 ch && leb ch 13)

-- `strchr(s, ch)`, as the number of characters before the first `ch`.
unfoldable pub strchr : List ℕ → ℕ → Option ℕ
strchr [] ch = none
strchr (x ∷ s) ch =
    let rest = strchr s ch in
    if x == ch then some 0 else elim rest [ none ↦ none | some k ↦ some (suc k) ]

-- The locals of `f_b64_pton` and the target array; `none` is a target of NULL.
pub record Decoder : Type 0 where
  pub state : ℕ
  pub tarindex : ℕ
  pub target : Option (List ℕ)

-- `target[i] = x`, and `target[i] |= x`.
unfoldable pub assign : ℕ → ℕ → List ℕ → Option (List ℕ)
assign i x target = if ltb i (length target) then some (set target i (u8 x)) else none

unfoldable pub or_assign : ℕ → ℕ → List ℕ → Option (List ℕ)
or_assign i x target =
    if ltb i (length target) then some (set target i (u8 (bit_or (get_or target i 0) x))) else none

-- Both stores of the cases 1 and 2.
unfoldable pub or_then_assign : ℕ → ℕ → ℕ → ℕ → List ℕ → Option (List ℕ)
or_then_assign i x j y target = elim (or_assign i x target) [
  | none ↦ none
  | some target' ↦ assign j y target'
]

-- One case of the switch: its bound, its stores, and the next `state` and `tarindex`. `last` is
-- the index that the test compares with `targsize`.
unfoldable pub digit_case :
    ℕ → ℕ → (List ℕ → Option (List ℕ)) → ℕ → ℕ → Decoder → Option (List ℕ) → Res Decoder (Unit {0})
digit_case targsize last stores state' tarindex' d none =
    ok tt (record d { state = state'; tarindex = tarindex' })
digit_case targsize last stores state' tarindex' d (some target) =
    if leb targsize last then fail d else elim (stores target) [
      | none ↦ fault
      | some target' ↦
          ok tt (record { state = state'; tarindex = tarindex'; target = some target' })
    ]

-- The switch, at `p = pos - Base64`.
unfoldable pub digit : ℕ → ℕ → Decoder → Res Decoder (Unit {0})
unfolding digit_case
digit targsize p d =
    let i = d.tarindex in
    let i' = u32 (i + 1) in
    if d.state == 0
    then digit_case targsize i (assign i (p * 2 ^ 2)) 1 i d d.target
    else if d.state == 1
    then digit_case targsize i' (or_then_assign i (p / 2 ^ 4) i' (bit_and p 0x0f * 2 ^ 4)) 2 i' d
        d.target
    else if d.state == 2
    then digit_case targsize i' (or_then_assign i (p / 2 ^ 2) i' (bit_and p 0x03 * 2 ^ 6)) 3 i' d
        d.target
    else if d.state == 3
    then digit_case targsize i (or_assign i p) 0 i' d d.target
    else ok tt d

-- `for (; ch != '\0'; ch = *src++) if (!isspace(ch)) return (-1);`, where the string goes on from
-- `ch`: whether its end is reached. `none` is a read behind the string, or of no ASCII character.
unfoldable pub only_spaces : List ℕ → Option Bool
only_spaces [] = none
only_spaces (ch ∷ src) =
    let rest = only_spaces src in
    if ch == 0
    then some true
    else if leb 128 ch
    then none
    else if isspace ch
    then rest
    else some false

-- The same loop with `break`: the string from the `ch` that it ends at.
unfoldable pub skip_spaces : List ℕ → Option (List ℕ)
skip_spaces [] = none
skip_spaces (ch ∷ src) =
    let rest = skip_spaces src in
    if ch == 0
    then some (ch ∷ src)
    else if leb 128 ch
    then none
    else if isspace ch
    then rest
    else some (ch ∷ src)

-- `if (target && target[tarindex] != 0) return (-1);` and the return.
unfoldable pub check_slop : Decoder → Option (List ℕ) → Res Decoder ℕ
check_slop d none = ok d.tarindex d
check_slop d (some target) =
    if leb (length target) d.tarindex
    then fault
    else if get_or target d.tarindex 0 == 0
    then ok d.tarindex d
    else fail d

-- Case 3, with the string behind the last pad.
unfoldable pub pad_end : List ℕ → Decoder → Res Decoder ℕ
unfolding only_spaces check_slop
pad_end src d = elim (only_spaces src) [
  | none ↦ fault
  | some false ↦ fail d
  | some true ↦ check_slop d d.target
]

-- Case 2 behind its loop.
unfoldable pub second_pad : Option (List ℕ) → Decoder → Res Decoder ℕ
unfolding pad_end
second_pad none d = fault
second_pad (some []) d = fault
second_pad (some (ch ∷ src)) d = if ch == pad64 then pad_end src d else fail d

-- Behind the first pad, where `ch` is the head of the string.
unfoldable pub after_pad : List ℕ → Decoder → Res Decoder ℕ
unfolding second_pad skip_spaces pad_end
after_pad [] d = fault
after_pad (ch ∷ src) d =
    if ltb d.state 2
    then fail d
    else if d.state == 2
    then second_pad (skip_spaces (ch ∷ src)) d
    else pad_end (ch ∷ src) d

-- The `while` loop, and what comes behind it. A character of 128 or more is a negative `char`,
-- which `isspace` must not be given.
unfoldable pub pton_loop : List ℕ → ℕ → Decoder → Res Decoder ℕ
unfolding after_pad
pton_loop [] targsize d = fault
pton_loop (ch ∷ src) targsize d =
    if ch == 0
    then if d.state == 0 then ok d.tarindex d else fail d
    else if leb 128 ch
    then fault
    else elim (isspace ch) [
      | true ↦ pton_loop src targsize d
      | false ↦ if ch == pad64 then after_pad src d else elim (strchr alphabet ch) [
        | none ↦ fail d
        | some p ↦ elim (digit targsize p d) [
          | ok _ d' ↦ pton_loop src targsize d'
          | fail d' ↦ fail d'
          | fault ↦ fault
        ]
      ]
    ]

unfoldable pub f_b64_pton : List ℕ → Option (List ℕ) → ℕ → Res Decoder ℕ
f_b64_pton src target targsize =
    pton_loop src targsize (record { state = 0; tarindex = 0; target = target })
