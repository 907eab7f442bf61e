-- ===== src/Pb/Message.antt =====
-- The message encoder of pb_encode.c. An encoder reads the memory, the descriptors, callbacks and
-- extensions, and writes to a stream.
pub mod Submessage
pub mod Values
pub mod Absent
pub mod Arrays
pub mod Fields
pub mod Encode
pub mod Format
pub mod Describes
pub mod Refines
pub mod Depth
pub mod Visits
use daily_diary.Base.{ℕ, zero, suc, List, [], ◌∷◌, Option}
use daily_diary.Pb.{Field, Res}
use daily_diary.Pb.OStream.{OStream}
use daily_diary.Pb.Scalar.{Memory}

abbrev pub Action : Type 0
Action = OStream → Res OStream (Unit {0})

-- pb_encoder_t: a descriptor, and the address of the data.
abbrev pub Encoder : Type 0
Encoder = Field → ℕ → Action

-- `pb_encode` of the messages inside a message: an array of descriptors, and an address.
abbrev pub MessageEncoder : Type 0
MessageEncoder = List Field → ℕ → Action

-- pb_extension_t with its pb_extension_type_t. `encode` is the call of `type->encode` on the
-- extension, `none` for NULL; `arg` is the descriptor behind `type->arg`, `dest` the pointer, and
-- `dest_at` and `found_at` the addresses of the pointer itself and of `found`.
pub record Extension : Type 0 where
  pub encode : Option Action
  pub arg : Field
  pub dest : ℕ
  pub dest_at : ℕ
  pub found_at : ℕ

-- The memory, the descriptors that start at an address, the function at an address that encodes a
-- callback field, with its descriptor and the address of `arg`, and the list of extensions that
-- starts at an address, empty for NULL.
pub record Env : Type 0 where
  pub mem : Memory
  pub fields_at : ℕ → List Field
  pub encode_callback : ℕ → Encoder
  pub extensions_at : ℕ → List Extension

-- `n` bytes of memory.
abbrev pub load_bytes : ℕ → ℕ → Memory → List ℕ
load_bytes zero a mem = []
load_bytes (suc n) a mem = mem a ∷ load_bytes n (suc a) mem
