-- ===== src/Lib.antt =====
-- A model of pilot-link, the suite that talks to Palm handhelds: libpisync, which synchronises a
-- desktop database with one on a device, and parts of libpisock, on which it stands.
--
-- The parts and their files
--   Sync     libpisync/sync.c with include/pi-sync.h. Types: the records, the queue and the calls
--            that leave the file. Proc: C procedures with `int result` and early returns. Store: the
--            queue, delete_both, store_record_on_pilot, opening and closing. Record: sync_record,
--            first its choice of a branch (`branch`), then the branches (`apply`). Merge: the fast
--            and slow merges in both directions and the queue's processing. Session: the five entry
--            points. The other files under Sync hold proofs.
--   Buffer   libpisock/pi-buffer.c, the growing byte buffer.
--   Macros   include/pi-macros.h, numbers of 8, 16, 24 and 32 bits in big-endian memory.
--   Slp      the SLP frame of libpisock/slp.c, with crc16 of libpisock/utils.c.
--   Padp     libpisock/padp.c. Padp: the headers, the layers below and padp_sendack. Send: padp_tx.
--            Receive: padp_rx. The other files under Padp hold proofs.
--   Cmp      libpisock/cmp.c, the handshake that agrees on a version and a rate.
--   Net      libpisock/net.c, messages over a stream: net_tx and net_rx. Handshakes: the exchanges of
--            fixed messages at the start of a connection. The other files under Net hold proofs.
--   AppInfo  libpisock/appinfo.c, the category block of an application's information, and with it the
--            application blocks of libpisock/memo.c and libpisock/todo.c.
--   Memo     libpisock/memo.c, packing and unpacking of memo records.
--   Address  libpisock/address.c, packing and unpacking of address records. The files under Address,
--            Memo, ToDo, Macros and Cmp hold proofs.
--   Dlp      the core of libpisock/dlp.c, the requests to the device. Args: dlpArg, dlpRequest and
--            their encoding, and the arguments of a response. Exec: dlp_request_write,
--            dlp_response_read and dlp_exec. Databases: opening, creating, deleting and closing
--            databases and the session's requests. Records and Records/Blocks: records, and the
--            application and sort blocks. The other files under Dlp hold proofs.
--   PiFile   libpisock/pi-file.c, database files, but for their transfer to and from the device. Open:
--            pi_file_open. Read: reading records and resources. Build: creating a file and putting
--            records, resources and blocks into it. Write: pi_file_close. The other files under
--            PiFile hold proofs.
--   ToDo     libpisock/todo.c, packing and unpacking of to-do records.
--   Base     what the parts share: lists and integers over the native numbers, Boolean tests, and
--            Option as the result of code that may have undefined behaviour.
--
-- Synchronisation
--   sync.c calls two sides that it cannot see: the conduit's callbacks (SyncHandler) and the device
--   (the dlp_* requests). Each is a constructor of `Call` with the arguments that the code passes.
--   An `Env` answers a call from the state of the world: a code, a number, a pointer, a record, and
--   the world afterwards; nothing is assumed of it unless a theorem says so. `World` holds the
--   desktop records in memory (`desk`), the queue, the trace of calls, newest first, and a state of
--   the two sides. The queue is a value that is passed on: the code has one, on its stack.
--   A procedure takes the environment, the variable `result` and the world. It goes on, has
--   returned, has undefined behaviour (`fault`: a read through NULL, or NULL given to a callback
--   that takes a record), or has run out of fuel (`stuck`). The macros PilotCheck, DesktopCheck and
--   ErrorCheck are the actions of the same names. In an operation that a conduit calls, what ends the
--   part before `cleanup:` is its `goto cleanup`. A device request that reports no error fills its
--   outputs. sizeof(precord->buffer) is 8, the size of a pointer.
--   The loops over records take fuel, one unit for each record. `RunsOut` says of an environment
--   that it hands out finitely many records: `remaining` bounds those left, and `limit` the indices
--   of the device's database. Fuel above both is enough.
--
-- Buffers and numbers
--   A block is the list of its bytes, whatever they are; a write or a read outside it is `none`.
--   The allocator is a parameter, of which it is used that a block has the size asked for. size_t
--   has 64 bits, unsigned long as many. free is not modelled, but for the blocks of PiFile: it
--   changes nothing that is observed.
--
-- SLP
--   slp_tx and slp_rx take the protocol below as a `Link`: what `write` and `read` return, the bytes
--   that a read appends, and the link's state. `Delivers` says of a link that a read hands out bytes
--   from the front of those under way, at least one and no more than asked for. The switch of
--   slp_rx is `step` on the five values of `state`, its loop `rx_loop`, the inner loop `read_all`.
--   Both loops run on the same fuel: five rounds, and a unit for each byte that a round reads, of
--   which there are at most as many as the payload has, or seven. The packet being read is the list
--   of its used bytes. pi_set_error is the code that it returns; the log and the dumps are left out.
--
-- PADP
--   padp_tx and padp_rx take the layers below as a `Lower`: the next protocol's read and write, the
--   socket options, the clock and the error calls on their state. The packet being read is the list
--   of the bytes that the reads have appended, and a byte beyond them is undefined. The loops share
--   their fuel: a unit for each fragment, for each packet that is passed over, and for each read.
--   `none` is undefined behaviour or fuel that has run out, and the theorems give fuel enough. What
--   `goto` and the early returns lead to are the cases of `Outcome` in Send and of `Arrival` in
--   Receive. `Hands` says of the layers below that packets arrive whole and in order, and that two
--   looks at the clock, one after the other, are at most thirty seconds apart; `Acks`, that the peer
--   acknowledges packets of data in the short format. errno and the log are left out; the log of an
--   unexpected packet reads four bytes of the message.
--
-- CMP
--   The functions of cmp.c act on the protocol's data and on the layers below, `Beneath`: the next
--   protocol's functions, the option that makes PADP send data, and the error calls. A buffer is NULL
--   or the list of its bytes. errno and the log are left out.
--
-- NET
--   net_tx and net_rx act on the protocol's data and on a `Stream`, the next protocol's functions and
--   the socket's options. Their loops take fuel, a round for each write or read, of which there are
--   at most as many as bytes, and rounds for the tickles that net_rx passes over. A header is the list
--   of the bytes that were read for it, and a byte beyond them is undefined.
--
-- Requests to the device
--   dlp.c talks to a socket, the record `Socket`: what pi_write, pi_read, pi_flush, pi_version and the
--   error calls do to its state. A function of dlp.c is a `Run`: from the socket's state it yields its
--   results and the state afterwards, or undefined behaviour. The requests share a course, `request`:
--   the errors are reset, the request is allocated with the lengths of its arguments, the bytes are
--   written into the first of them, dlp_exec runs, and the outputs are read from the response, all of
--   them. `Ample` says of an allocator that it refuses nothing. Reading a response past the bytes
--   that arrived is undefined. size_t and long have 64 bits, int has 32.
--
-- Database files
--   A file that is read is its bytes and a position; all of them are there, and fread fails only at
--   their end. A file that is written goes to a `Disk`: whether fopen succeeds, and whether bytes are
--   taken behind those written before. fclose and fflush succeed, and the old file is removed. A
--   function that builds a file yields its code and the structure, or undefined behaviour, which is
--   here a block that is freed twice or a copy from a buffer that is NULL. A block is NULL, bytes, or
--   freed. int has 32 bits, and offsets and sizes that are larger wrap around. Functions that read
--   are asked for all their outputs. Time is kept as the 64 bits of a time_t.
--
-- Application blocks and records
--   A pointer is the list of the bytes from it on. The flags of renamed categories are 0 or 1. A
--   string is the list of its bytes before the NUL, and a block without a NUL has no string.
--   The arrays of an address record are a list of 19 entries and five labels. mktime is a parameter, of
--   which nothing is assumed. An `int` that holds a flag is a Bool.
--
-- Not modelled
--   The packers of the databases' other records, and the application block of addresses; the socket
--   options of PADP, CMP and NET; of DLP the requests for resources, preferences, users,
--   times and the expansion cards; the transfer of files to and from the device in pi-file.c, and MD5;
--   the device drivers, sockets, debugging output and locking, which are calls of the operating system;
--   the command line tools and the bindings; popt, which is a library of its own.
pub mod Base
pub mod Address
pub mod Net
pub mod Cmp
pub mod Macros
pub mod Buffer
pub mod AppInfo
pub mod Dlp
pub mod ToDo
pub mod Padp
pub mod PiFile
pub mod Memo
pub mod Slp
pub mod Sync
