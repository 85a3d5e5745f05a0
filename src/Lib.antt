-- ===== src/Lib.antt =====
-- c-ssz, a C library for the SimpleSerialize (SSZ) encoding and its Merkle roots.
--
-- The program has a serializer and a deserializer for each SSZ type, which work on buffers that the
-- caller gives, and functions that hash packed values to a root:
--   * src/ssz_utils.c and src/ssz_constants.c, shared helpers: `is_zero`, `next_pow_of_two`,
--     `check_max_offset` and the table of highest bits, in Utils;
--   * include/ssz_types.h and include/ssz_constants.h, the codes, the union's record and the sizes,
--     in Types;
--   * src/ssz_serialize.c, in Serialize: Uints (`ssz_serialize_uint8` to `ssz_serialize_uint256` and
--     `ssz_serialize_boolean`), Bitfields (`ssz_serialize_bitvector`, `ssz_serialize_bitlist`), Unions,
--     Vectors and Lists;
--   * src/ssz_deserialize.c, in Deserialize, with the same children;
--   * src/ssz_merkle.c, in Merkle: `ssz_merkleize`, `ssz_pack`, `ssz_pack_bits`, `ssz_mix_in_length`
--     and `ssz_mix_in_selector`;
--   * include/ssz_generator.h, macros that expand to the serializer and the deserializer of a container,
--     in Generator: Output and Input (the statements for a field, and the container), Lists (lists of
--     objects of a fixed size, in rounds of four) and Variable (lists of objects of variable size behind
--     a table of offsets); Codec says what such a statement writes and reads.
--   * bench/bench_ssz_attestation.c, the benchmark on an Attestation, in Attestation: Buffer (the buffer
--     that grows, `db_append`), Write (`serialize_attestation`), Read (`deserialize_attestation`) and Root
--     (the functions `hash_tree_root_…`).
-- A macro is a function of its arguments: a field is its value, a statement maps the buffer and the
-- offset to these afterwards, and the code that it may return. A function `ssz_f` of the source is the
-- definition `f` for the serializers and deserializers of src/, and keeps its name elsewhere. RoundTrip
-- takes serializers and deserializers together.
--
-- How the code is modelled. A pointer is an `Option`, `none` the null pointer. Memory is a list of
-- cells, and an access outside it is a `fault` (Common/Exec and Common/Mem); so a theorem that a run
-- is `done` also says that every access stays inside its object. What a function writes through its
-- pointers is returned with its code, also where it fails. Machine integers are native numbers, with
-- the wrap written out (`sz` for a `size_t` of 64 bits). The byte order of the host is a parameter
-- (Host), and memory that holds wider integers is seen through it: an array of uint16_t to uint64_t is
-- a list of numbers that `memcpy` shows as bytes in the host's order, and one of the wide types, which
-- C code only knows as memory, is a list of bytes. The number behind a row of bits, and the bytes that
-- SSZ prescribes for a bitvector and a bitlist, are in Bitfield; what a serializer promises, its
-- refusal of a small buffer included, is `emit` in Serialize/Emit; the tree that `ssz_merkleize` hashes
-- is `merkle_root` in Merkle/Tree.
--
-- Parameters. The functions of a union's payload are the caller's; a theorem on unions has their
-- success as a hypothesis. `SHA256_hash` (lib/mincrypt), `malloc` and `realloc` are parameters; theorems
-- ask for a digest of 32 bytes, and for memory of the size asked for. The functions that a macro of
-- Generator is given are parameters, and the theorems ask what bytes they write and read.
-- A local array that is not initialised has the cells of a parameter, `stack`.
--
-- Loops are recursion on the number of rounds, but for three that run on fuel: the doubling in
-- `next_pow_of_two`, with 65 rounds for at most 63 doublings up to 2 ^ 63, the doubling of a buffer's
-- capacity in `db_ensure_capacity`, with 65 for sizes up to 2 ^ 63, and the rows of the tree in
-- `ssz_merkleize`, with 65 for at most 63 halvings. A loop that outlives its fuel is a `hang`.
--
-- Not modelled: the SHA-256 of lib/mincrypt and the tests; of the benchmarks, the timing, the printing
-- and the YAML reader, which are I/O, and bench/bench_ssz_indexed_attestation.c, whose functions repeat
-- those of the Attestation with a list of indices in place of the bits.
--
-- Signed numbers. `ssize_t` is seen in the search of `ssz_deserialize_bitlist` only, as an `Option` that is
-- `none` for -1; a sum or a product that does not fit 63 bits is undefined in C, and a `fault`.
pub mod Common
pub mod Types
pub mod Host
pub mod Utils
pub mod Serialize
pub mod Bitfield
pub mod Deserialize
pub mod Merkle
pub mod Generator
pub mod Attestation
pub mod RoundTrip
mod Tests
