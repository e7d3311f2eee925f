-- ===== src/Lib.antt =====
-- libjit: the arithmetic that compiled code calls, the library's bitsets, metadata lists and memory
-- pools, the layout and the queries of type descriptors, the building of instructions on integers and
-- their interpretation, the blocks of functions that are being compiled, the liveness of values in
-- them, and the cache of native code.
--
-- The parts, and the files that model them:
-- - Word: the C types of include/jit/jit-defs.h.in. A signed type is given by half its modulus, an
--   unsigned one by its modulus; conversion reduces, as two's complement does.
-- - Intrinsic: jit/jit-intrinsic.c, all functions on integers. `Signed.f` is the body of
--   `jit_int_f` and `jit_long_f`, `Unsigned.f` of `jit_uint_f` and `jit_ulong_f`; `Int`, `Long`,
--   `Uint` and `Ulong` are these at the types' widths, with the multiplications that report
--   overflow, which differ from type to type. `Convert` holds the conversions `jit_a_to_b` and
--   `jit_a_to_b_ovf`. A function that stores through `result` gives the pair of what it stores and
--   what it returns. `bit_and_op`, `bit_or_op`, `bit_xor_op` and `bit_not` are `and`, `or`, `xor`
--   and `not` of the source.
-- - Bitset: jit/jit-bitset.c and jit/jit-bitset.h, which jit/jit-cfg.c uses. A function that
--   changes a bitset returns it; `none` is an access outside the array or through a null pointer.
-- - Meta: jit/jit-meta.c. A list of nodes; calls of the user's functions and releases of memory are
--   returned as events in their order. Whether memory can be had is an argument of `set`.
-- - Pool: jit/jit-pool.c, on a heap of words: the free list runs through the first words of the items
--   that were given back. What `jit_calloc` gives is an argument, and so is what the words hold that
--   overlap in part with a written one; `none` is an access through a null pointer. A pool has
--   elements of 8 to 4000 bytes: a free one holds a pointer, and a block has 4000 bytes for them.
-- - TypeLayout: `perform_layout` and `jit_type_set_size_and_alignment` of jit/jit-type.c, on a
--   type's header and its fields, each given by the size and the alignment of its type.
-- - TypeTree: descriptors as trees (`struct _jit_type` of jit/jit-internal.h), with
--   `jit_type_get_size` and `jit_type_get_alignment`, which call the layout, and the other queries
--   of jit/jit-type.c. `jit_type_normalize` relies on the layout through the sizes only.
-- - Block: jit/jit-block.c: the blocks of a function, the table of their labels, the array of
--   instructions, and `_jit_block_peephole_branch`. `Block/Peephole/Paths` gives the steps that
--   control takes between blocks without any effect, against which the rewriting is stated.
-- - Live: `compute_liveness_for_block` of jit/jit-live.c: the flags of values and instructions, from
--   the last instruction of a block to the first. `Live/Elimination` says what a run of a block is:
--   instructions that compute a value, as any function of their operands and of the effects so far, or
--   throw, and instructions that have an effect.
-- - Cache: jit/jit-cache.c and jit/jit-cache.h, the cache of native code. `Cache` has the position and
--   `_jit_cache_alloc`; `Encoding` is `CompressInt` and `UncompressInt`; `Debug` has the blocks of
--   debug information, the iterator over them and the loops of the queries; `Method` has the regions
--   of a method that is being written, with the steps it may go through; `Lookup` is the tree of all
--   regions, as a tree of values; `Pages` has the pages and the start and the end of a method;
--   `Query` puts lookup, blocks and loops together. Addresses are numbers. `jit_malloc_exec`,
--   `jit_realloc` and `jit_malloc` are arguments; the bytes of the code are not kept. `pages_left`
--   is `none` where `pagesLeft` is -1.
-- - Opcode: the opcodes on integers of include/jit/jit-opcode.h.
-- - Item: the unions that hold integers, `jit_item` of jit/jit-interp.h and that of `jit_constant_t`,
--   as the number of their first eight bytes; the kinds of integer types, and what a conversion to
--   such a type means (`cast`, `holds`, `converted`), which the theorems refer to.
-- - Value: jit/jit-value.c, integer constants and `jit_constant_convert`.
-- - Insn: jit/jit-insn.c. `convert` is `jit_insn_convert`, `Tables` has its tables of opcodes, `Descr`
--   the opcode descriptors, and `Arith` the functions `jit_insn_add` and so on, as `insn_add` and so
--   on. A function gives the builder that it leaves and the value that it returns.
-- - Interp: jit/jit-interp.c, the opcodes on integers, and in `Code` the code of
--   jit/jit-rules-interp.c for an instruction that computes a value: the loads into registers, the
--   opcode, and the store. `Interp/Code/Runs` says what built instructions compute: run in any frame,
--   they leave a value in a new place and all earlier places as they were, or throw.
-- - Base: numbers, integers, lists and options, with the lemmas that the parts share.
-- - Tests: the theorems applied to concrete inputs.
--
-- Assumptions. Signed arithmetic that overflows in C wraps, as the generated code does. Words,
-- pointers and `unsigned long` have 64 bits. Bit numbers are not negative. Every back end defines
-- JIT_ALIGN_OVERRIDES, so an explicit alignment limits the alignment of the fields. The size of
-- `jit_nfloat` and the table of sizes that are returned in registers depend on the machine and are
-- arguments. Descriptors are trees, without sharing: reference counts, field names, calling
-- conventions and the data of tags are left out. Loops are recursions on a list, on the number of
-- rounds left, or on a descriptor. The doubling of the label table has 64 rounds, since a table of
-- one entry or more that is doubled 63 times holds every label below 2 ^ 63.
--
-- For the building of instructions: the bytes of an integer are stored lowest first. Types are those
-- that `jit_type_normalize` gives for integers. The back end is the interpreter, which has all
-- opcodes. Each value that is no constant has an item of the frame to itself. Memory can be had. What
-- lies behind the end of `convert_intrinsics` is an argument, `beyond`, since the code reads it; so
-- is `un`, what a union on the C stack holds before it is set.
--
-- Not modelled: the intrinsics on floating point, the creation and the release of descriptors; of the
-- instructions, branches, calls, loads and stores; of the interpreter, the same, arguments and
-- exception handlers; and the rest of the compiler (copy propagation, the control flow graph, register
-- allocation, native code generation), ELF files and the tools. Of the code cache, the
-- insertion into the red-black tree and `_jit_cache_get_end_method` are left out, which change or
-- compare the links between nodes.
pub mod Base
pub mod Word
pub mod Intrinsic
pub mod Bitset
pub mod Meta
pub mod Pool
pub mod TypeLayout
pub mod TypeTree
pub mod Block
pub mod Live
pub mod Cache
pub mod Opcode
pub mod Item
pub mod Value
pub mod Interp
pub mod Insn
pub mod Tests
