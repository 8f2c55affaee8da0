-- ===== src/Lib.antt =====
-- librd, the Rapid Development C library: a model of its data structures and codecs, and theorems
-- about them. librd is a set of small modules, one .c and .h file each at the root of the
-- repository, that an application uses side by side; most keep their state in a structure which the
-- caller holds, and the containers are written over the list macros of rdsysqueue.h.
--
-- Files and code:
--   Common       numbers, lists, bits and the results of C code that the other modules share. A
--                result is `ok`, `fault` (a NULL pointer that is followed, memory out of bounds, an
--                assertion that fails, a shift that C leaves undefined) or `out_of_fuel`.
--   Avl          rdavl.c and rdavl.h. `rd_avl_node_t *` is a tree that owns its nodes; the stored
--                height `ran_height` is a field, written where the source writes it. An inserted node
--                has the height 0, as no node has, so that the invariant `IsAvl` on the stored
--                heights allows the true depths of two subtrees to differ by 2. Functions have the
--                names of the source without rd_avl_: `balance_node`, `rotate`, `insert_node`,
--                `remove_elm`, `move`, `find_node`, `foreach_node`. Avl/Api has the calls on
--                `rd_avl_t`, and the theorems that compare them with operations on a sorted list.
--   Encoding     rdencoding.c and rdencoding.h: Encoding/Varint has rd_varint_encode_u64,
--                rd_varint_decode_u64 and the signed pair, Encoding/Hex has rd_bin2hex and
--                rd_hex2bin. A buffer is the list of its bytes, with its size.
--   Bitvec       rdbits.c and rdbits.h: `init`, `op` and `fxs` on the list of 32-bit words.
--   Buf          rdbuf.c and rdbuf.h: a chain of buffers, each with its memory, its length and its
--                allocated length. The calls have the names of the source without rd_bufh_.
--   Queue        rdqueue.c and rdqueue.h: the first-in first-out queue, with the heap of its elements
--                and their reference counts. A call is what it does between taking and releasing
--                the lock; a blocking pop is its last pass through the loop. rd_fifoq_init clears only
--                what it allocates; in the caller's memory the fields stay as they were.
--   Mem          rdmem.c and rdmem.h: the memory contexts (rd_memctx_*), with the counters and the
--                list of allocations.
--   Text         rdstring.c: `strnspn`, `strncspn` and `strnchrs`, on the bytes from the string's
--                address on; reading beyond them is a `fault`. Text/Format has rd_tsprintf with its
--                ring of buffers, and rd_snprintf_cat; Text/Diff has rd_strndiffpos and
--                rd_strdiffpos.
--   Lru          rdlru.c and rdlru.h: the entries, the youngest first, and their counter.
--   Options      rdopt.c and rdopt.h: `opt_parse`, in Options/Parse, with its loops over the arguments
--                and over the table, and the parser `assign` of the options' variables.
--   Timer        rdtimer.c and rdtimer.h: the sorted list of timers on a heap, rd_timer_start0,
--                rd_timer_stop0, rd_timer_destroy0, and a pass of the timer thread (`run_pass`),
--                with LIST_INSERT_SORTED of rdsysqueue.h and the time stamps of rdtime.h. In a pass,
--                each timer that is started again reads the clock itself.
--   Thread       rd_threads_create of rdthread.c, on what pthread_create returns for each thread.
--   Rand         rdrand.c and rdrand.h: `jitter` and the shuffle of an array.
--   Units        rdunits.c and rdunits.h: the unit and the number that rd_size2str shows.
--   Avg          rdavg.c and rdavg.h: the ring of periods of an average, for rates and histograms.
--
-- Integers are natural numbers with the wrap-around of the C type written out (`% 2 ^ 32`,
-- `% 2 ^ 64`); a result that may be negative is an integer. Counters of type int have no upper
-- bound.
--
-- Fuel: rd_avl_balance_node and rd_avl_rotate call each other, on a fuel of the sum of the heights
-- of the two subtrees and three. Each level of the recursion takes away a level of the difference
-- between the two heights, so that the fuel lasts. rd_opt_parse goes over the
-- arguments on a fuel of one more than their number; each round takes one argument at least. All else
-- is structural recursion.
--
-- Parameters: the comparator of the AVL tree, with the laws of an order; `ffs` and `__builtin_clz`,
-- with what is documented of them; `malloc`, as the memory that it returns; what `recv` reads and what
-- `vsnprintf` formats; the writer's callback of the buffer chains; `strtol` and `stat` of the option
-- parser; the time that the clock returns; `rand`; `pthread_create`; `double` and the choice of a
-- histogram's bucket in the averages; the comparison of a fraction in `float`.
--
-- Not modelled: locks, the running of threads and condition variables (rdthread, rdiothread),
-- files, sockets, logging and gzip (rdfile, rdio, rdlog, rdgz), which mostly call the operating
-- system or another library; the generated CRC-32 (rdcrc32); rd_calloc_struct0, the texts of the
-- option parser's messages, addresses, events and alerts; rd_bufh_dump, which prints. `free` has
-- an effect in Queue and Timer, and rd_bufh_destroy returns what it frees; elsewhere a released
-- object is one that is no longer there.
pub mod Avg
pub mod Avl
pub mod Bitvec
pub mod Buf
pub mod Common
pub mod Encoding
pub mod Lru
pub mod Mem
pub mod Options
pub mod Queue
pub mod Rand
pub mod Text
pub mod Thread
pub mod Timer
pub mod Units
