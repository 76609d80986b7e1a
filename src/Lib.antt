-- ===== src/Lib.antt =====
-- auroraOS, a small x86-64 kernel in C (kernel/): the parts of it that compute, modelled function by
-- function, with what makes each correct.
--
-- Common.antt holds what the models share. Numbers are the native ℕ; a C word keeps its wrap-around
-- written out as `% 2 ^ w`, and an array is a list, with reads and writes by index.
--
-- Bignum.antt and its children are kernel/bignum.c, the arithmetic under RSA and P-256: Bignum.antt
-- has the loops over words and `bn_mulmod_w`, Bignum/Exp.antt the width of a modulus, the reduction
-- loop and `bn_modexp`, Bignum/Bytes.antt the byte buffers and the entry points. Uninitialised
-- structs are arguments of the model (`junk`), so a theorem for all of them says that they do not
-- matter. The reduction loop runs on fuel, the value of its number plus one, which is enough since
-- each round subtracts a modulus that is not zero.
--
-- Keyboard.antt is kernel/keyboard.c: the scancode handler and the ring it fills. Keyboard/Queue.antt
-- says what it promises, a bounded queue; Keyboard/Ring.antt and Keyboard/Refine.antt relate the
-- two, and Keyboard/Keys.antt is about the tables. The wait for a key is a read that returns `none`.
--
-- Fat16.antt and its children are kernel/fat16.c. The disk is a map from sector numbers to bytes, with
-- the sectors that cannot be read or written, in place of kernel/ata.c. Fat16.antt has the state, the
-- table access and the search for a free cluster; Fat16/Boot.antt mounting and formatting,
-- Fat16/Names.antt the 8.3 names, Fat16/Dir.antt the directory cursor, listing and lookup,
-- Fat16/Slot.antt the search for a slot, Fat16/Chain.antt the cluster chains and Fat16/Files.antt the
-- operations on files. Fat16/Table.antt, Fat16/Words.antt, Fat16/Copies.antt, Fat16/Entry.antt and
-- Fat16/Chain/Free.antt hold the proofs about the table, Fat16/Sectors.antt, Fat16/Clusters.antt,
-- Fat16/Extend.antt, Fat16/Written.antt, Fat16/Contents.antt and Fat16/ReadBack.antt those about the
-- contents of files. A loop that follows a chain on the disk runs on fuel and answers `none` when it
-- is short, since a damaged disk can hold a chain without an end.
--
-- Inflate.antt and Inflate/Blocks.antt are kernel/inflate.c. Inflate/Reader.antt is about the bit
-- reader, Inflate/Blocks/Bounds.antt about the output, also the one that a failure leaves. The loop
-- over symbols runs on `out_max + 1` rounds, enough since every symbol but the last writes a byte; the
-- loop over blocks on a round for each bit.
--
-- Rtc.antt is kernel/rtc.c, and Rtc/Time.antt relates it to the time that the clock holds. The ports are
-- arguments, and the wait for a stable reading takes the first of a list that is.
--
-- Noteedit.antt is kernel/noteedit.c. A line is the string in its 100 bytes. Noteedit/Lines.antt has the
-- loops over lines and characters, Noteedit/Valid.antt the invariant, Noteedit/Undo.antt and
-- Noteedit/Saved.antt what keys and saving do.
--
-- Mouse.antt is kernel/mouse.c, without the handshake on the ports; Mouse/Screen.antt has the runs of
-- it. Strings.antt is kernel/string.c. The functions that write have one store in which ranges may
-- overlap, the comparisons and the splitting have lists of bytes; Strings/Move.antt and
-- Strings/Copies.antt are about the former, Strings/Order.antt and Strings/Tokens.antt about the
-- latter. Printf.antt is kernel/printf.c, on a format and the memory behind its NUL; its digit loop
-- has 64 rounds, enough for 64 bits.
--
-- Sha256.antt is kernel/sha256.c; Sha256/Padding.antt states the padding of FIPS 180-4 and relates the code
-- to it, and the test vector of the standard is run in Sha256/Tests.antt.
--
-- Hmac.antt is kernel/hmac.c on top of it, and Hmac/Prf.antt relates the key expansion to P_hash; its loop
-- runs on a round for each byte, enough since a round gives one at least.
--
-- Aes.antt and Aes/Rounds.antt are kernel/aes.c, the first with the tables, the key schedule and the
-- steps of a round. Aes/Field.antt, Aes/Columns.antt, Aes/Unmix.antt and Aes/Steps.antt have the
-- lemmas on the field, the columns and the steps, Aes/Cbc.antt the two directions of CBC mode. The
-- table that is built once is a state that the entry points pass on. The block of FIPS 197 is run in
-- Aes/Tests.antt.
--
-- Asm.antt and its children are kernel/asm.c: Asm.antt has the number and operand parsers,
-- Asm/Tokens.antt a line's words, Asm/Encode.antt the state and the encoders, Asm/Assemble.antt the
-- two passes and Asm/Run.antt the start of a program. The loop over lines runs on a round for each
-- character, enough since a line takes one at least. Asm/Decode.antt is a decoder of the instruction
-- format, which Asm/Fields.antt, Asm/Bytes.antt, Asm/Reading.antt and Asm/RoundTrip.antt relate to the
-- encoders; Asm/Steps.antt, Asm/Valid.antt and Asm/Lines.antt are about the first pass, Asm/Jumps.antt
-- and Asm/Answers.antt about the second and the answer. The write behind a full code buffer ends the
-- model with an outcome of its own.
--
-- X509.antt is kernel/x509.c, on a monad of results. X509/Der.antt writes values as DER does,
-- X509/Names.antt and X509/Certificate.antt a name and a certificate; X509/Reading.antt and
-- X509/Windows.antt follow the cursor through them. X509/Bounds.antt and X509/Endless.antt are about
-- bytes of any other kind. The loop over the attributes runs on fuel, since there are names on which
-- the code does not end.
--
-- Fiber.antt is kernel/fiber.c. The programs of the fibers are any order of calls, as a relation in
-- Fiber/Runs.antt; Fiber/Nesting.antt says how the contexts wait for each other, Fiber/Moves.antt what
-- each call does to that, Fiber/Returns.antt is about a fiber and those that it resumes, and
-- Fiber/Slots.antt about the table.
--
-- Rsa.antt is kernel/rsa.c over the exponentiation of Bignum/Bytes.antt. Rsa/Verify.antt and
-- Rsa/Accept.antt are about the signatures that are accepted, Rsa/Padding.antt about the block that is
-- encrypted. They take lengths to be below 2^32 - 11.
--
-- Not modelled: drawing, the window manager, the pages and style sheets of the browser and the
-- terminal (what they compute are pixels), the network stack with TLS (registers, rings and timing;
-- its cryptography is modelled), elliptic curves above the bignums, the program loader and the system
-- calls (they run machine code in fibers and forward to other parts), the login gate and the settings
-- (small clients of the file system, the hash and the clock), the device and processor set-up, and the
-- port I/O under the drivers that are modelled.
pub mod Common
pub mod Bignum
pub mod Keyboard
pub mod Fat16
pub mod Inflate
pub mod Rtc
pub mod Noteedit
pub mod Mouse
pub mod Strings
pub mod Printf
pub mod Sha256
pub mod Hmac
pub mod Aes
pub mod Asm
pub mod X509
pub mod Fiber
pub mod Rsa
