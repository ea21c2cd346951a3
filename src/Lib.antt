-- ===== src/Lib.antt =====
-- A model of the web server of this repository. The server loads the files below a directory into
-- a cache when it starts, and then answers GET and HEAD requests from that cache. The C code
-- stands in src/.
--
-- The parts and how they interact. src/file_cache.c builds a tree of folders and files from the
-- disk (Cache.Build), with the content of each file as it is, or compressed by gzip, as long as
-- there is space (Cache.Content, with the pipe to the program from src/system.c). A lookup walks
-- down that tree along the path of a request (Cache.Find). src/parse_header.c finds the end of a
-- request's header in the bytes that a client sent and parses its first line (Http.Parse).
-- src/http.c chooses the answer from the parsed request and the cache (Http.Answer), and writes
-- the header of the answer into a buffer (Http.Header). src/toolbox.c has the functions on
-- strings and paths that the others use (Toolbox). src/server.c keeps the clients in a doubly
-- linked list (Server, Server.Clients), reads from a client and processes its request
-- (Server.Requests: it calls the parser, the production of the answer on the cache, and the
-- writing of the header; the first two together are `answer_request` of Http.Answer.Laws, and
-- Http.Answer.Expected has the answers that are promised, field by field), sends the header and
-- the body of the answer (Server.Answers), and does so in a loop around `poll` that also accepts
-- clients (Server.Rounds). Server.Setup has the default parameters and the start, and
-- Server.Deletion, with Cache.Delete, the end. src/main.c calls them in that order around the
-- loop, the end at exit (Main): a run of `main` ends in the loop, in an `exit` with what
-- `_main_server` points to then, or inside of a later call, and `at_exit` is what follows. Two
-- groups of modules cross the parts: Cache.Mirror says what the cache, its lookup and the answers
-- hold of the disk that the cache was built from, and Server.Conversation follows one request
-- from the bytes that arrive to the bytes that are sent.
--
-- Names. A C function `someName` is the definition `some_name`; a loop of it, or a part behind a
-- test, is a definition beside it whose comment says which. Structs are records, and enums are
-- data types with the same constants in lower case. `Folder` is a data type, as it holds folders.
-- An array of pointers with its number of used entries is the list of those entries, with the
-- capacity that was allocated.
--
-- Values. A string or buffer is a list of bytes; a string that the code only reads as a string
-- has no NUL in the model, and the request buffer, into which the parser's pointers go, has its
-- NUL and what stands behind it. An `int` is its 32-bit pattern, negative from 2 ^ 31 on, and
-- additions and subtractions of sizes wrap around. A call ends with a value (`ok`), with the end
-- of the program (`exit`, with the message), with an access outside of an object (`fault`), with
-- a loop that never ends (`hang`), or with the model's bound reached (`out_of_fuel`).
--
-- Clients. A client is known by its address in a heap, which is a function from addresses to the
-- clients that are allocated; a NULL pointer and the address of a freed client fault. The strings
-- and messages of a client belong to it alone and are fields of it; the body of an answer is the
-- content of a file in the cache, which does not change after the start, and is copied in the
-- model. A call that the code makes for a client takes the world, which is the server and the
-- heap, and gives the next one.
--
-- Bounds. The recursion over directories gets the depth MAX_PATH_LENGTH, as each level makes the
-- path longer and a path that is too long ends the program. The loop over the components of a
-- path gets one round more than the path has bytes. The loop that deletes the clients gets one
-- round more than the server counts clients. The loop that reads a raw file gets two rounds: the
-- first reads all that the disk has, so a second one in which bytes are missing reads nothing,
-- and neither does any later one. The conversion to upper case takes any number of rounds.
--
-- The environment. The disk, and the output of the programs `file` and `gzip`, are a parameter
-- (Cache.Disk): they do not change while the cache is built, and the reads of open files and
-- pipes and `close` do not fail. `malloc` succeeds for a size that is not negative, and `realloc`
-- to 0 bytes frees the buffer and gives NULL. The date of an answer is an argument. So is what a
-- socket call does: the bytes that `read` gives or that it fails, how many bytes `write` and
-- `sendfile` take or that they fail with ECONNRESET or otherwise, what `open` gives, the result
-- of `accept` and the memory for a new client. `poll` is a function from the entries that the
-- code fills in to the events, and the endless loop is a list of such rounds. Whether the `close`
-- of the listening socket at the end succeeds is an argument; the `close` of a client's socket
-- and of a file that was sent does not fail. `sscanf`, `snprintf`, `isspace` and `toupper` are
-- written as the C standard says, in the C locale; the texts for `snprintf` have fewer than 2 ^
-- 31 bytes.
--
-- Not modelled. The addresses of sockets; signals that arrive within a round of the loop, as
-- SIGINT ends the program in the model only where it waits in `poll`, and what the exit of the
-- program inside of a call deletes, but for the failure of `socket`; the memory of the names,
-- paths and messages, which have one owner each; and all printing.
pub mod Common
pub mod Toolbox
pub mod Cache
pub mod Http
pub mod Server
pub mod Main
mod Tests
