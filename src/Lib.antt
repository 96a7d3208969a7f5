-- ===== src/Lib.antt =====
-- A verification library for the programs of minilib-ports: C programs that are compiled against
-- minilib. It models parts of the shell in ash/, the check of the secret in totp/, and
-- the utilities of the shell in sash-3.8/.
--
-- Common: lists, Boolean tests and C strings over the native numbers, and 64-bit words. A C string
-- is the list of its bytes before the NUL. `intmax_t` is its bit pattern, below 2 ^ 64.
--
-- Ash/Outcome: how a call ends. `error` of ash/error.c leaves the caller; it is the value `err`,
-- which forgets the state. Reads outside an object are `err fault`.
--
-- Ash/Mystring: the functions of ash/mystring.c. `scopyn` writes to the bytes from a pointer to the
-- end of its object; `strtoimax` is a parameter.
--
-- Ash/Options: `nextopt` of ash/options.c over a record of the globals `argptr`, `optptr` and
-- `optionarg`. Ash/Options/Scan has its theorems.
--
-- Ash/Alias: ash/alias.c. Chain models the functions on one chain of the hash table, Table those
-- on the whole table `atab`, with the hash, and Commands `list_aliases` and the built-ins `alias`
-- and `unalias`, which print lines. A pointer to a link of a chain is the rest of the chain.
-- `qsort` is a parameter; memory is not modelled. `unaliascmd` calls `nextopt` of Ash/Options; its
-- loop has fuel, and one round is enough. Views, Refines and Arguments relate the table to a map
-- from names to texts, Listing is about what is printed, and Keeps about aliases whose text is
-- being read by ash/input.c, which may only lose their names.
--
-- Ash/ArithToken: ash/arith_token.c, the scanner of arithmetic expressions, over the globals that
-- it shares with the evaluator. `strtoimax` is a parameter. Consumes is about what a call reads, and
-- Spelling about the operators.
--
-- Ash/Arithmetic: ash/arithmetic.c, the evaluator. Shell has its state and what it uses of the
-- shell's variables (ash/var.c) and of the library, as a record of parameters; Operators the table
-- of precedences and `do_binop`; Eval the functions of the recursive descent. They call one another
-- through an argument `self`, and `run` ties the knot on fuel; `arith` takes 8 for each byte of the
-- expression and 9 more, which Ends shows to be enough. A signed overflow in ++, -- and the prefix
-- minus, which C leaves undefined, wraps around in the model. Where the code reads a pointer as a
-- number (a union, while it skips), the model reads a parameter `address`. Division, Pure and Blind
-- are about `/` and `%`, about what is skipped, and about that parameter. `expcmd` is not modelled.
--
-- Ash/Memalloc: the stack of blocks of ash/memalloc.c, with the marks and the strings that are built
-- on it by the macros of ash/memalloc.h. The number of an allocation stands for the address of a
-- block, a place in a block is its distance from the start, and `realloc` counts as a new address. The
-- mark that a call takes is named by its place on the list of marks.
-- The bytes in memory that `malloc` hands out are a parameter. Sizes do not reach the limit of an
-- `int`, allocation does not fail, and here documents (`herefd`) are not modelled. Marks, Valid and
-- Growth have the invariant, Steps the sequences of operations, Kept and Restored what a mark keeps,
-- and Text the strings.
--
-- Ash/Expand: `rmescapes` of ash/expand.c, without DEBUG, with the string that it leaves in place as
-- its value. Escapes has what control bytes mean, and its theorem.
--
-- Totp: totp/totp.c, from the length of the secret to the end of its decoding. A secret that is not
-- accepted ends the program with status 1; here the result is `false`. The loop that decodes the
-- secret in place has fuel, more than the length of the secret. Base32 is about what is accepted,
-- Groups, Symbols and Decoded about the decoding of a group, RoundTrip about the loop, and Accepted
-- about what is encoded. The step number, the hash and its truncation are not modelled.
--
-- Sash: sash-3.8/utils.c. Wildcard models `match`, on fuel for each pair of a byte of the text and
-- one of the pattern; Meaning has what a pattern means, and Correct the proof of the loop. Mode
-- models `modeString`, Strings `makeString` and `buildName`, Io `fullWrite`, `fullRead` and
-- `tryWrite` over a kernel that is a parameter, and Args `makeArgs` with `expandWildCards`, where the
-- directories are a parameter, and each argument takes one unit of fuel. Classes is about a class at
-- the front of a pattern. `buildName`, `expandWildCards` and `makeArgs` return pointers to automatic
-- arrays: the value of the model is what such an array holds at the return. `makeArgs` reads the
-- array of `expandWildCards` behind its return, which is a fault in the model.
--
-- Splitvt: the emulation of a terminal. Window is the record of splitvt/video.h, Videomem the memory
-- of splitvt/videomem.c, and Vt100, with Csi, the functions of splitvt/vt100.c that take one byte of a
-- program's output. A call has no result where it leaves an array, where an `int` overflows, or where
-- the cursor would be negative. What is written to the terminal is not modelled, nor are set_win, the
-- set-up and the resize; what is sent back to the program is. The columns that a terminal entry gives,
-- and the digits of a number, are parameters. A tab has fuel, one more than the columns. Copy and
-- Selection are more of videomem.c; the buffer that getsel_video writes to has no bound. Shape,
-- Erased, Scrolled, Copied and Selected are about the memory, Valid, CsiKept, ScanKept and Kept about
-- what keeps a window in order, and Faults about the bytes that do not.
--
-- Not modelled: the rest of ash, totp, sash and splitvt, sed, smu, micro-http, the DHCP client,
-- the games and die; minilib.tmp.h is a copy of the C library that the programs use.
pub mod Common
pub mod Ash
pub mod Totp
pub mod Sash
pub mod Splitvt
