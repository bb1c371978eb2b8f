-- ===== src/Lib.antt =====
-- libdft64_ECT: dynamic taint tracking for 64-bit programs under Pin, with the tags of each byte of
-- memory and of each register.
--
-- The program's parts. A tag library (src/tag_traits.h, src/tag_trait.cpp) gives tags that stand for
-- sets of offsets of the input, and `tag_combine`, their union. The library `bdd_tag`
-- (src/bdd_tag.h, src/bdd_tag.cpp) keeps the sets as paths of a trie in one vector of nodes. The tag
-- map (src/tagmap.h, src/tagmap.cpp) keeps a tag for each byte of memory in page tables and, in the
-- thread contexts of src/libdft_api.h, for each byte of a register. For each instruction of the
-- program under test, a handler of src/ins_*.cpp inserts a call of an analysis function, which
-- updates the tag map as the instruction updates memory and registers.
--
-- The files.
--   Bdd: src/bdd_tag.h and src/bdd_tag.cpp, `BDDTag::alloc_node`, `insert_n_zeros`, `insert_n_ones`,
--     `insert`, `combine` and `find` under their own names. A pointer into the vector is an index; a
--     vector is its size and a function. Bdd/Inv is the invariant of the trie, Bdd/Labels the set of
--     offsets of a label, the other children lead up to the theorems of Bdd/Union and Bdd/Find.
--   Tag: the interface of src/tag_traits.h. Tag/Laws says what its clients rely on; Tag/Instances
--     are the tag libraries for `uint8_t` and `lb_type` of src/tag_trait.cpp, with the proofs of the
--     laws, for `uint8_t` on the tags 0 and 1 that `tag_alloc` makes.
--   Ssa: the tags of src/ssa_tag_gc.h and src/ssa_tag_gc.cpp, under their own names. A pointer to a
--     cell is its number, counted through the blocks; the objects of type `ssa_tag` are numbered too,
--     and the first three are the cache of the thread. Ssa/Worker is what the code uses of Sylvan, a
--     parameter, with the laws it is to obey. Ssa/Refs counts the objects that refer to a cell,
--     Ssa/Counts compares the counts of the heap to that, Ssa/Ring is the ring of free cells, Ssa/Sweep,
--     Ssa/Gc and Ssa/Alloc are the collection and the loops that wait for a cell, Ssa/Assign the members
--     of `ssa_tag`, Ssa/Sets the offsets of a tag, Ssa/Fresh, Ssa/Made, Ssa/Combine and Ssa/Create the
--     two functions that make tags, Ssa/History the sequences of calls. The ring is the one of `SSA_BLK` 0x10000.
--   TagMap: `tag_dir_setb`, `tag_dir_setb_save_mem` and `tag_dir_getb_as_ptr` of src/tagmap.cpp. A
--     pointer to a table or a page is an option; `mem_left` counts the allocations that succeed.
--   Machine: the state of the analysis functions and the other operations of src/tagmap.cpp on it.
--     A command gives a value and a state, or nothing where the process ends. Machine/Effect and
--     Machine/Loop are what the proofs about moves use, with tags as they are; Machine/Meaning,
--     Machine/Getn and Machine/Join speak of the sets of offsets of each location.
--   Ins: the analysis functions, under their own names less a leading underscore: Ins/Xfer,
--     Ins/Stos, Ins/Lea and Ins/Movbe of src/ins_xfer_op.cpp, Ins/Clear of src/ins_clear_op.cpp,
--     Ins/Binary of src/ins_binary_op.cpp, Ins/Movsx of src/ins_movsx_op.cpp, Ins/Xchg of
--     src/ins_xchg_op.cpp, Ins/Unitary of src/ins_unitary_op.cpp, Ins/Core of src/libdft_core.cpp. Ins/Reg is `REG_INDX` of src/ins_helper.h. Ins/Width has the operand
--     widths of the families of functions.
--   Handlers: the functions `ins_*` of src/ins_*.cpp, which choose analysis functions for an
--     instruction, and in Handlers/Core the dispatch of src/libdft_core.cpp to them. A handler gives the list of calls that it inserts. Handlers/Pin is what they ask of
--     Pin, a parameter, and the macros of src/ins_helper.h; Handlers/Class says which answers Pin
--     documents, and Handlers/Form which operands an instruction may have. Handlers/Moves,
--     Handlers/Joins and Handlers/Idiom run the calls.
--   Syscall: the hooks of src/syscall_hook.cpp. `strstr` on the name of a file and `lseek` are a
--     parameter; a `std::set` of descriptors is a test. Syscall/Source is the loop that gives tags to
--     the bytes of the input, Syscall/Read the hook of `read`. Syscall/Notify are
--     `sysenter_save` and `sysexit_save` of src/libdft_api.cpp, over a table of descriptors as in
--     src/syscall_desc.h, which is an argument, and Syscall/Exit is a call without callbacks.
--   Tests and the other modules of that name: runs, and the theorems at concrete states.
--
-- Numbers. `lb_type`, `tag_off` and `ADDRINT` are natural numbers, with the wrap-around of 32 and 64
-- bits written out where the code subtracts, adds to an address or shifts.
--
-- Fuel. The loops of `insert_n_zeros` and `insert_n_ones` have as much as the number of offsets that
-- are left, of which each round takes at least one. The loops of `combine` and `find` have as much as
-- the sum of their labels, since a parent is a smaller label. The theorems on them say that the
-- functions return, so the fuel is enough. The loops that wait for a free cell have fuel for one
-- collection, after which there is a cell; those over the cells of all blocks have one round a cell.
--
-- Not modelled: the functions that print tags, the flags of `set_sign` and `set_size` in the
-- theorems, the tag libraries of `std::set` and EWAH and src/ssa_tag_nogc.cpp, the races of several
-- threads on the ring of src/ssa_tag_gc.cpp and its profiling, the entries of the table of system
-- calls and the other hooks of src/syscall_desc.cpp, the start of threads and the inspection of traces
-- of src/libdft_api.cpp, and all of Pin, sylvan and EWAH. `XADD`, `CMPXCHG` on memory, the divisions of
-- src/ins_unitary_op.cpp and the moves of all registers of src/libdft_core.cpp are defined, and no
-- theorem is about them.
pub mod Bdd
pub mod Handlers
pub mod Ins
pub mod Machine
pub mod Prelude
pub mod Ssa
pub mod Syscall
pub mod Tag
pub mod TagMap
pub mod Tests
