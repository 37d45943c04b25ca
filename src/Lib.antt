-- ===== src/Lib.antt =====
-- ToolBOSLib: a library of containers, channels and serializers in C. What is verified here is its
-- containers, the searches in its texts, and its channels over memory.
--
-- The parts. HashTable (src/HashTable.c) maps addresses to addresses. It calls the hash function that
-- it is given, or HashTable_hashGeneric of the same file. PQueue (src/PQueue.c) is a bounded queue of
-- serialized elements in one block of memory, filled and emptied through two memory channels.
-- PQueueArray (src/PQueueArray.c) passes calls on to one PQueue of an array. MTQueue (src/MTQueue.c) is
-- a queue of linked elements on the heap, in FIFO or LIFO order. ArrayList (src/ArrayList.c) is a
-- growing array of pointers, used as a stack. Barrier (src/Barrier.c) lets threads wait for each other.
-- HashTableIterator (src/HashTableIterator.c) walks over a HashTable and removes entries of it. UString
-- (src/UString.c) searches in texts. IOChannel (src/IOChannel.c) reads and writes bytes through the
-- interface of a stream; IOChannelGenericMem (src/IOChannelGenericMem.c) is such a stream over a block
-- of memory, which IOChannelMem (src/IOChannelMem.c) opens. PQueue reads and writes its elements
-- through two of these channels, of which its model keeps the open and close calls.
--
-- The files:
--   * Base: shared names, lists on the native numbers, and `Run`, what a call does that may end the
--     process by ANY_REQUIRE, or wait for ever.
--   * HashFunctions: the mixing macros, HashTable_hashString and its polynomial (Djb2),
--     HashTable_hashGeneric (Generic), the agreement of its three branches (Generic/Agree), and what it
--     depends on (Generic/Content).
--   * HashTable: the state, init, hash and HashTable_expand; Calls has insert, search, fetch, remove,
--     change and clear. The names are those of the C functions without their prefix. Chains, Buckets,
--     Move, Valid and Keys prepare the theorems, which stand in the module of their call: Expand,
--     Insert, Search, Unlink (the table without an entry), Remove (fetch and remove), Change, Init,
--     Clear. Iterator is HashTableIterator, Iterator/Visit what its walk meets, Iterator/Splice and
--     Iterator/Remove its removal. Valid has the invariant and `view`, the map that a table stands for.
--   * PQueue: the state; Ring has push, pop, popWait, purge and purgeWait. Window says which bytes hold
--     which elements, Fifo relates a queue to the list of its elements and has push, Pop has pop and
--     purge, Wait has the calls that wait.
--   * PQueue/Setup: PQueue_init, PQueue_setupElement and PQueue_clear. A switch that falls through is a
--     function per case (Setup, Channels, Calls for what acquires, Teardown for what releases). Held
--     lists what a queue has at each stage; Stages and Begin have PQueue_init, ElementStages and Finish
--     have PQueue_setupElement, End has PQueue_clear.
--   * PQueueArray (src/PQueueArray.c): the calls on one of several queues. Queues relates the queues to
--     a list of lists, Calls has push and pop.
--   * MtQueue (src/MTQueue.c): the state and all calls. Chain has the linked elements, Order has push,
--     Pop has pop and clear, Wait has sequences of pushes and popWait.
--   * ArrayList (src/ArrayList.c): the state and all calls. Stack relates push, pop and get to the list
--     of the items, MoveDown says what the memmove of ArrayList_remove does to the cells, Remove what
--     that makes of the items.
--   * Barrier (src/Barrier.c): the state, the calls, and the threads as a step relation. Barrier_wait
--     is two functions, `enter` up to the wait on the condition and `leave` behind it; a wait may end
--     without a broadcast. Rounds has what holds in every state that steps reach, Release that waiting
--     threads get on.
--   * Cond: the wait of src/Cond.c, as the queues use it.
--   * UString (src/UString.c): the searches in texts. Affixes has what a text starts and ends with,
--     Starts where a search starts, Positions the searches for a character.
--   * IoChannel: the state of a channel and `Stream`, the interface below it. Calls has the single
--     calls of src/IOChannel.c, Lines those byte by byte and block by block. Mem is the memory stream,
--     MemOpen its opening and its mapping of files. Reading has the read over memory, RoundTrip a write
--     that is read again, PutBack what is put back and read again, over any stream, Blocks
--     IOChannel_readBlock, and Within, with Transfers, Seeks and Calls below it, sequences of calls.
--   * Tests in each of them: runs, and instances of the theorems.
--
-- How the code corresponds. A pointer is the number of its address and 0 is NULL. `unsigned int`
-- arithmetic wraps at 2 ^ 32 where the code can wrap; the seeks of a channel wrap in 64 bits and the
-- size of a PQueue's block in 32, where C leaves the overflow undefined; the other BaseI32 of PQueue.c,
-- the `int` of ArrayList.c and the counts of a channel are numbers that are assumed to stay in range.
-- Whether an allocation or a seek succeeds is a Boolean argument of the call, so that a theorem covers
-- both cases. A call returns the new state with its result. In a text and in a channel a result of -1
-- is `none`, a text is the list of its characters up to the NUL, a buffer the list of its bytes, and
-- the bytes that a call stores are part of its result. A system call that IOChannelGenericMem_mapFd
-- makes is a parameter, with the error that it leaves. The serialize function of a queue's elements is
-- a parameter, `Codec`, and `IsCodec` says what the queue relies on. In the set-up, `Outcomes` says
-- which calls of other files succeed.
--
-- Bounds. The loops of HashTable_hashGeneric run on fuel, the length of the key; more fuel gives the
-- same hash. The loop of MTQueue_clear runs on fuel, the number of elements and one more, which is
-- enough. The loops of IOChannel_readBlock and IOChannel_writeBlock run on fuel, as a stream may give 0
-- bytes for ever; over memory one round is enough. All other loops recurse on the chain, the list or
-- the count that they run over.
--
-- Not modelled: logging, the allocation of the structs themselves, threads that run inside each other's
-- calls, but for those of a barrier (a wait of a PQueue is a sequence of pushes by others, a wait of a
-- MTQueue what others do with it), the opening and closing of channels, their formats and plugins, the
-- streams over files and sockets, and the other parts of the library: serializers, sockets, the file
-- system, the edits of texts, and timers.
pub mod ArrayList
pub mod Barrier
pub mod Base
pub mod Cond
pub mod HashFunctions
pub mod HashTable
pub mod IoChannel
pub mod MtQueue
pub mod PQueue
pub mod PQueueArray
pub mod UString
