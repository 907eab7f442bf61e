-- ===== src/Lib.antt =====
-- DailyDiary is an iOS diary. Its own code is a set of Swift view controllers
-- (DailyDiary/DailyDiary/controller); the C of the repository came with its pods: nanopb
-- (DailyDiary/Pods/nanopb), which writes and reads protocol buffer messages for the Firebase pods,
-- and the Base64 routines of FirebaseDatabase (DailyDiary/Pods/FirebaseDatabase/Firebase/Database/third_party/
-- SocketRocket/fbase64.c), which its web socket uses.
--
-- The parts, and where they are modelled:
--   * streams (pb_encode.c, pb_decode.c and their headers): Pb/OStream, Pb/IStream. A stream is a
--     record; for a memory buffer it holds what was written, or the array from the pointer on. A
--     custom callback is a function on the data behind `state`.
--   * the scalar and framing encoders of pb_encode.c: Pb/Encode.
--   * the scalar and framing decoders of pb_decode.c: Pb/Decode, Pb/Fixed.
--   * what pb.h declares for both: Pb.
--   * pb_common.c, the iterator over the fields of a message: Pb/Iter. A field pointer is an index
--     into the array, a data pointer an address.
--   * the integer field codecs of pb_encode.c and pb_decode.c: Pb/Scalar. Memory is a function from
--     addresses to bytes, in little-endian order.
--   * the message encoder of pb_encode.c: Pb/Message. Values are the encoders of single values,
--     Submessage and Arrays what is written in two passes, Absent the test for proto3 defaults,
--     Fields one field, Encode a message. Descriptors, callbacks and extensions are functions of
--     addresses. Format says which bytes a message has, without streams; Refines compares.
--   * the decoders of bytes and strings and `allocate_field` of pb_decode.c: Pb/Blobs. `pb_realloc`
--     is a parameter.
--   * `decode_static_field` of pb_decode.c: Pb/Static. The decoder of the field's type and the
--     defaults of a message are functions it is given.
--   * the default values of a message, of pb_decode.c: Pb/Defaults.
--   * the message decoder of pb_decode.c: Pb/Decoder. Release frees what a message points to,
--     Pointers and Callbacks decode a field on the heap and one of the user, Fields any field and
--     the extensions, Required the bits of the required fields, Rounds the loop of
--     `pb_decode_noinit`, Messages `pb_decode`. `pb_realloc`, `pb_free`, callbacks and the decoders
--     of extensions are parameters (`DecodeEnv`). `fixed_count_size` is in memory, since `pSize`
--     may point to it. Safe follows the stream through every branch.
--   * fbase64.c: Base64, an array being the list of its bytes.
--   * the view controllers: App/Forms (log-in, registration, recovery and change of a password),
--     App/Diary (the memories in the database), App/Navigation (which screen follows which). A
--     handler gives the list of its effects; completion handlers are handlers of their own.
--     Firebase's database is a record of operations with their laws, NSPredicate a parameter.
-- Every C function is the function of the same name. The stream functions take the
-- stream as their last argument. A call gives a `Res`: `ok` for a normal return with what is
-- stored through the out parameters, `fail` for a return of false or -1, `fault` for an access
-- outside the memory it was given.
--
-- Numbers are natural numbers with the wrap-around of size_t, uint64_t, uint32_t and
-- uint_fast8_t written out (`u64`, `u32`, `u8`); a signed number is its bit pattern. The build
-- sets PB_FIELD_32BIT, PB_ENABLE_MALLOC and PB_NO_PACKED_STRUCTS, and the target has 64 bits.
-- Theorems on buffers ask for sizes below 2 ^ 63, or 2 ^ 32 where the code counts in 32 bits.
--
-- Rounds: a loop that takes a byte each round gets one round more than the stream has bytes left,
-- the loop of `pb_decode_varint` eleven, one more than it can take; running out of rounds is a
-- `fault`. `pb_field_iter_find` gets one round more than there are fields, and meets none twice.
-- The loops over the fields of a message get a round for each field; one that goes on is `none`, and
-- a `fault` of `pb_encode` and `pb_decode`.
-- The loop of `decode_static_field` gets one round more than the array has entries and the
-- substream bytes; the loops of `decode_pointer_field` and `pb_decode_noinit`, whose rounds each
-- read a byte, one more than there are bytes. A callback for a string is called once more than the
-- string has bytes at most: one that reads nothing would be called for ever.
-- The loops of Base64 go down the list of characters.
--
-- `isspace` and `strchr` of the C library are those of the C locale, written out.
--
-- Texts are equal where their characters are; Swift's canonical equivalence is not modelled.
--
-- `pb_encode`, `pb_check_proto3_default_value`, `pb_field_set_to_default`, `pb_decode_noinit` and
-- `pb_release_single_field` go down on the depth of the stack. For the first two, one more than the
-- messages are nested is enough, and for `pb_decode` two more, with the calls it makes for defaults
-- and release. A full stack is a `fault` too, and `none` where a call gives a Boolean or a memory.
--
-- Not modelled: the bounds of the blocks on the heap, so that a read behind an array there gives
-- some byte. A read through a null pointer gives the byte at address 0, but for the arrays of
-- pointers that `pb_release` frees, where it is `none`. Theorems on the whole of `pb_decode` ask for
-- messages without pointers for this reason. Not modelled either: of
-- the view controllers layout, table cells, user names, pictures and the letters that are drawn
-- for an id; and the Objective-C and C++ pods, which are libraries of other projects.
pub mod Base
pub mod Pb
pub mod Base64
pub mod App
pub mod Tests
