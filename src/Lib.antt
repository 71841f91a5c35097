-- ===== src/Lib.antt =====
-- Luarc 5.1 (src/): Lua 5.1.4 with reference counting added to its mark and sweep collector. Values
-- carry pointers to objects, each object the number of slots that hold it; setting a slot counts the
-- new value and drops the old one, and an object whose count comes to 0 is taken off the collector's
-- lists, drops what it holds and is freed at once.
--
-- Object.antt and Heap.antt are values, heap objects and the collector's state (src/lobject.h,
-- src/lgc.h, src/lstate.h): a pointer is an address in an explicit heap, a freed cell is empty, and
-- using one is a fault. Unlink.antt takes an object off the collector's lists and Members.antt is what
-- an object holds (src/lgc.c); Release.antt is `luarc_subref`, `luarc_releaseobj` and `luaC_freeobj`
-- with its cases (src/lobject.h, src/lobject.c, src/lgc.c), with a child module per lemma family;
-- Assign.antt is the setters of src/lobject.h. Releasing recurses through the members of what it
-- frees, on fuel: each turn drops one value, and the values to drop are those at hand and the members
-- of live objects, each object being freed once. A `__gc` method is Lua code and enters as an argument.
--
-- Chunk.antt, Dump.antt and Undump.antt are precompiled chunks: the saved part of a function, the bytes
-- that `luaU_dump` hands to the writer (src/ldump.c), and `luaU_undump` (src/lundump.c) over the bytes
-- to read. The fuel of the loader is the depth of calls that the code itself limits. A number is its
-- eight bytes; `luaG_checkcode` is an argument; sizes of C types are those of a 64-bit machine.
--
-- Zio.antt is the buffered stream over a reader that feeds the loader (src/lzio.c).
--
-- Memory.antt is how arrays grow (src/lmem.c, src/lmem.h), over the caller's allocator.
--
-- Strings.antt is the table of interned strings (src/lstring.c): its chains are lists, and the address
-- that the allocator gives to a new string is an argument.
--
-- Opcodes.antt is the instruction format and the table of opcodes (src/lopcodes.h, src/lopcodes.c).
-- FloatByte.antt is the sizes in one byte and the logarithm of src/lobject.c; its loops are on fuel
-- for the 32 bits of an unsigned int. Table.antt is the integer keys of src/ltable.c: lookup, the
-- length operator, and the sizes that a rehash computes; the searches of the length operator have fuel
-- for the size of the interval, for 32 doublings, and, where the source resorts to a linear search, up
-- to a key with value nil. Hash.antt is the hash part: where a key belongs, the walk along a chain,
-- `newkey` with the nodes that it moves, `luaH_set`, and a store as in `lua_rawset` (src/lapi.c); its
-- nodes are a function of the index, with a dummy flag for the shared node of an empty part, and a
-- walk has a turn for each node and one more. A table that is full gives back that it is to be rehashed.
-- Reference counts are left aside there, but for the key that `newkey` drops.
--
-- Checker.antt and Symbexec.antt are the bytecode checker of src/ldebug.c, `precheck` and `symbexec` with
-- its loop and `luaG_checkcode`: every read of an array is a step that may fault, and the loop has fuel
-- for the instructions before its end, one more than its rounds. Control.antt is where the `pc` of
-- `luaV_execute` (src/lvm.c) may stand after an instruction, whatever the values are. Compare.antt is
-- the order of values, `luaV_lessthan` and `lessequal` (src/lvm.c), over `strcoll` of the C library;
-- the loop of `l_strcmp` has a turn for each zero in a string and one more.
--
-- Classes.antt, Matcher.antt and Find.antt are the pattern matching of src/lstrlib.c: classes and sets of
-- bytes, the matcher `match` with its captures, and the searches and substitutions over it. The fuel
-- of the matcher is the length of the pattern, since every call moves on in it; that of a substitution
-- is for a round at each position and at the end, and the test that stops it. What replaces a match is a function of its captures.
--
-- Jumps.antt is the jump lists of src/lcode.c, over the instructions of Opcodes.antt, how one is
-- appended to another, patched, and left pending for the next instruction; the loops have a turn for
-- each element.
--
-- Not modelled: the marking and sweeping of the collector, the lexer, the parser, the expressions of
-- the code generator, the values that the interpreter loop moves, calls and errors, the C interface,
-- the formatting of the string library and the other libraries, which are most of the program's
-- remaining code; of tables, the reinsertion of keys by a rehash and their traversal. Outside Memory.antt the allocator is taken to
-- succeed.
pub mod Assign
pub mod Checker
pub mod Chunk
pub mod Classes
pub mod Compare
pub mod Control
pub mod Dump
pub mod Find
pub mod FloatByte
pub mod Hash
pub mod Heap
pub mod Jumps
pub mod Matcher
pub mod Members
pub mod Memory
pub mod Object
pub mod Opcodes
pub mod Prelude
pub mod Release
pub mod Strings
pub mod Symbexec
pub mod Table
pub mod Undump
pub mod Unlink
pub mod Zio
