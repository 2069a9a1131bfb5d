-- ===== src/Lib.antt =====
-- A model of the C library's modules rlstr, rlmem, rlsys, rltime, rllog, rlcmd and
-- rleth, with its theorems.
--
-- Parts. rlstr guards the string functions of the C library and edits strings in place. rlmem wraps
-- the allocator: while tracing is on it keeps a list of the blocks that are out, under a mutex, and
-- writes a report of the leaks when it ends. rlsys asks the operating system about the processor and
-- the process, and parses what it reads with rlstr. rltime reads the clock and sets the date. rllog
-- filters messages by level and appends them to one file, which it empties when it is too large. rlmem
-- takes the path of its report from rlsys and the time from rltime. rlcmd runs a shell command with a
-- limit of time and retries, and keeps signals away while it waits. rleth asks for the state and the
-- configuration of the network card, reads two files of lines, and tests whether the network answers.
--
-- Files. Common holds the shared names: tests on numbers, lists, outcomes of code that may run into
-- undefined behaviour (`Run`, with `fault`), and the constants of public.h (`Public`), a header that
-- the repository does not hold; the modules rely on the values of four of its constants. Libc has
-- the functions of the C library that the sources call, on buffers that are lists of bytes: a pointer
-- is NULL (`none`) or the bytes from where it points to the end of its object, and a read or a write
-- past the end is a fault. Libc/Access, Libc/Text and Libc/Search have the lemmas on these. Libc/Scan
-- has the lines of a stream and the items of a line, Libc/Inet the text of an IPv4 address. Net is the
-- table of open descriptors, which the functions that open sockets and files pass on.
--   Str      rlstr/src/rlstr.c, a function each, with the names of the source. A function that
--            changes a buffer returns its code and the buffer. Proofs: Str/Edit (insert, delete),
--            Str/Remove, Str/Replace and Str/ReplaceChar (substrings), Str/Copy, Str/Digits
--            (numbers).
--   Memory   the state of rlmem/src/rlmem.c, its static variables, the mutex and the heap as one
--            record, and the calls of the allocator and the mutex as steps on it.
--   Mem      the functions of rlmem/src/rlmem.c; Mem/Target the path of the report, Mem/Lifecycle
--            the start and the end of tracing. Mem/Invariant says that the list owns its blocks and
--            that the counters agree with it; Mem/Table is the abstract view, a table of blocks
--            that forgets where the nodes lie. Mem/Alloc, Mem/Unlink, Mem/Release, Mem/Retag,
--            Mem/Realloc and Mem/Lifecycle/Report have the proofs.
--   Mem/Threads  rl_malloc, rl_calloc and rl_free of rlmem/src/rlmem.c a shared access at a time: a
--            thread is the place where it stands (`Pc`), and a move is one access, one call of
--            the allocator or the mutex, or the walk along the list, which is under the lock.
--            Threads move in any order, and the allocator answers each move as it likes.
--            Mem/Threads/Claims says which blocks are held, Mem/Threads/Standing how one thread
--            stands to the others, Mem/Threads/Sums and Mem/Threads/Acting how all do,
--            Mem/Threads/Starting, Mem/Threads/Recording and Mem/Threads/Freeing take the moves
--            one by one. Mem/Threads/Tracked goes from the threads to the invariant of the list
--            and back, Mem/Threads/Safety is about all runs, Mem/Threads/Schedule,
--            Mem/Threads/Progress and Mem/Threads/Finish let the threads go on to the end,
--            Mem/Threads/Whole and Mem/Threads/Alone are about one thread, and Mem/Threads/Race
--            is about rl_realloc.
--   Sys      rlsys/src/rlsys.c, with what the system answers as arguments; Sys/Resident the memory
--            in use, Sys/RunTime the time since a start, with the operations on double as arguments. Proofs: Sys/Cpu, Sys/Temperature, Sys/Resident/Status.
--   Time     rltime/src/rltime.c; Time/Server and Time/Server/Session the time of a server. Proofs:
--            Time/Validate, Time/Command, Time/Server/Buffer, Time/Server/Faultless,
--            Time/Server/Pieces, Time/Server/Date, Time/Server/Session/Closing and
--            Time/Server/Session/Answer.
--   Log      rllog/src/rllog.c, with the file's content as state; Log/Wrappers a function for each
--            level. Proofs: Log/Write, Log/Filter. Log/Threads has threads in write_rl_log a call
--            of the system or the mutex at a time; Log/Threads/Moved is about one move,
--            Log/Threads/Entries about all runs, Log/Threads/Looping and Log/Threads/Alone
--            about one thread.
--   Command  rlcmd/src/rlcmd.c, with the answers of fork, waitpid and kill as arguments and a list
--            of events as the result. Proofs: Command/Waiting (the inner loop), Command/Retry (the
--            outer one), Command/Signals, Command/Restore, Command/Counts and Command/Limit. What
--            `signal` installs for a handler, with its mask and flags, is an argument.
--   Eth      rleth/src/rleth.c, what it reads from addresses and lines; Eth/Query the functions that
--            ask for the configuration, Eth/Connect those that test the card and the connection.
--            Proofs: Str/Compare, Eth/Query/Address, Eth/Query/Words, Eth/Query/Stanzas,
--            Eth/Query/Dhcp, Eth/Query/Routes, Eth/Query/Gateway and Eth/Connect/Outcome.
--   Tests    the theorems on concrete inputs.
--
-- Numbers. Bytes are numbers, since char is unsigned on the target of the object files, where size_t
-- has 32 bits; arithmetic on size_t, unsigned int and unsigned long long is written with its
-- wrap-around wherever it can wrap. An int is an integer. Most loops are structural recursion and
-- need no fuel: the loop of rl_str_isdigit counts the rounds that are left, and a decimal of fixed
-- width has as many rounds as columns. The loop of partial writes recurs on the answers of write, and
-- has the outcome `none` where they end first; as many answers as bytes are enough. The loop of recv
-- recurs on the pieces that the peer sends, behind which it has closed. Two run on fuel: the loop of
-- waitpid, since without a limit of time it may not end (with one, as much fuel as the limit is
-- enough), and the lines of a stream, with its length, which is enough.
--
-- Not modelled: the calls of rllog in the other modules and the formatting of its arguments; the start
-- and the end of logging and of tracing and rl_realloc as one of several threads, apart from the race
-- of rl_realloc with rl_malloc; what a processor reorders, since a move is one access
-- that all threads see. Reads of the counters for a debug line, behind the unlock, are left out with
-- the line. The functions of the system are arguments, and so are strptime, strtol and the sign that
-- strcmp fixes.
pub mod Common
pub mod Libc
pub mod Str
pub mod Sys
pub mod Time
pub mod Memory
pub mod Mem
pub mod Command
pub mod Net
pub mod Eth
pub mod Log
pub mod Tests
