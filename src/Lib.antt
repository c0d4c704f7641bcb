-- ===== src/Lib.antt =====
-- Verification of the eSSP host library (_eSSP/), which drives note validators and coin hoppers
-- over a serial line.
--
-- The program. A command helper (_eSSP/ssp_helpers.c, or _eSSP/lib/ssp_commands.c with a command
-- structure of its own) writes a request into a command structure and calls `SSPSendCommand`
-- (_eSSP/lib/SSPComs.c). That compiles the request to a packet (`CompileSSPCommand`: sequence bit,
-- optional encryption, checksum, byte stuffing), transmits it with retries, feeds what arrives
-- byte by byte to `SSPDataIn`, decodes an encrypted reply, and hands the data of the reply back.
-- Encrypted packets (_eSSP/lib/ITLSSPProc.c) are built around AES in ECB mode and a checksum
-- (_eSSP/lib/Encryption.c). The key for them is negotiated by an exchange of powers (the same file,
-- with the number functions of _eSSP/lib/Random.c). New firmware is downloaded to a unit by raw
-- blocks after a few packets (_eSSP/lib/SSPDownload.c).
--
-- The files.
--   Base         numbers, lists, bytes and bits, arrays, and outcomes of C code
--   Defs         the structures of _eSSP/inc/SSPComs.h, constants of _eSSP/inc/ssp_defines.h
--   Host         the globals `encPktCount` and `sspSeq`, and the script of the serial port
--   Crc          `cal_crc_loop_CCITT_A`
--   Cipher       `aes_encrypt`, `aes_decrypt`: the loops over blocks
--   Aes          the block functions: Aes.Word the macros on words, Aes.Field the mixing of columns,
--                Aes.Sbox the S-boxes, Aes.Block the key schedule and the rounds; Aes.Ecb puts
--                them behind the interface of Cipher, Aes.Fips is the cipher as FIPS 197
--                describes it
--   Crypt        `EncryptSSPPacket`, `DecryptSSPPacket`
--   Packet       `CompileSSPCommand`, `SSPDataIn`; Packet.Frame is the frame as a function
--   Link         what the command helpers take from the packet layer
--   Send         `SSPSendCommand`; Send.Sequence is about the sequence bits, Send.Session about sequences of calls,
--                Send.Sealed about encrypted replies, Send.Encrypted about whole calls with
--                encryption
--   Negotiation  `InitiateSSPHostKeys` and what it calls; Negotiation.Random is Random.c,
--                Negotiation.Session is `NegotiateSSPEncryption` with the glue of linux.c that
--                fills Link, Negotiation.Slave is the unit at the other end, and
--                Negotiation.Wire the receiver in front of it
--   Download     `DownloadDataToTarget`, `DownloadFileToTarget` and the thread; Download.File is
--                the header of the file, Download.Port the wait for single bytes, Download.Ram and
--                Download.Main the two transfers; Download.Loader is the unit at the other end;
--                Download.Threads has the threads beside their callers, and `my_fini`
--   Port         `WriteData` and `SetBaud` of serialfunc.c, `open_ssp_port`, `ssp_init`;
--                Port.Writing is about the bytes that go out, Port.Options has the options of the
--                port, Port.Framing what they amount to, Port.Reading the loop that reads
--   Helpers      the calls of ssp_helpers.c, one function each; Helpers.Requests is the request
--                format as the unit reads it; Helpers.Poll is `ssp6_poll`, Helpers.Setup is
--                `ssp6_setup_request`
--   Commands     the calls of ssp_commands.c, one function each; Commands.Replies are those that
--                read data from the reply, Commands.Requests is the request format as the unit
--                reads it, Commands.Polls is about the events in a poll, Commands.Amounts about the amounts
--   Examples     the theorems at concrete inputs
-- A function is named as in the source, in lower case (`SSPDataIn` is `ssp_data_in`).
--
-- The modelling. C numbers are natural numbers with their wrap-around written out (`u8`, `u32`,
-- `u64`; `unsigned long` has 64 bits and the machine is little-endian). An array is a function of
-- the index, and every access carries the guard of its size. The outcome of a computation is
-- `ok`, `fault` for undefined behaviour (an access outside an array, a shift by 64 or more), or
-- `waiting` for a wait that the script of the port does not end. State that the code changes in
-- place (a command structure, a packet, the globals) is passed on explicitly. The serial port and
-- the clock are a script: for each transmission whether it is written, and for each round of the
-- waiting loop the time and the bytes that are there. `rand` is a function of the number of calls
-- so far, and so is `GetSeed`. The packet layer takes the block functions of AES by the interface
-- `BlockCipher`, which Aes.Ecb fills. A `long long` of Random.c is an integer, undefined where a
-- product leaves its range or the divisor is 0; a left shift of one keeps the low 64 bits, as gcc
-- defines it. The calls of termios.h that set speeds are
-- parameters. The download talks to the interface `Device`, by which the calls of serialfunc.c with the handle in
-- `itlFile->port`, `OpenSSPPort` with the name of the port, and the exchange of packets are
-- parameters; the handle that the second `OpenSSPPort` returns is not looked at, as in the code. Its thread is a function that is run after the checks, and the steps of
-- calls and threads on the global that says so, in any order, are a relation (Download.Threads).
--
-- Bounds. The waiting loop and the retries run along the script, and the receiver along the bytes
-- that arrive; they have no fuel. The loops over the events of a poll reply have fuel 255, one round for
-- each byte of a reply: every round moves the index, and a read at 255 is outside the reply.
--
-- The algorithm of Euclid for the S-boxes has fuel 16 with 8 rounds for each inner loop, which
-- is proved enough for every byte. The search for a prime has its fuel as a parameter: that it ends
-- rests on the gaps between primes, and out of fuel it is `waiting`. The wait for a single byte runs
-- along the rounds that the device gives.
--
-- The loop that reads the port has fuel, of which one round more than the bytes that wait is enough.
-- The loop that writes to the port runs along the calls of `write` that the system answers. The
-- packet layer takes only the result of it, and the download that the bytes are written.
--
-- Not modelled: the terminal (_eSSP/linux.c), which is system calls; the bytes of two downloads that run at once
-- on one port; the memory from `malloc`; the Python binding (eSSP/), another language.
pub mod Base
pub mod Defs
pub mod Crc
pub mod Aes
pub mod Cipher
pub mod Host
pub mod Crypt
pub mod Packet
pub mod Port
pub mod Link
pub mod Negotiation
pub mod Send
pub mod Helpers
pub mod Commands
pub mod Download
pub mod Examples
