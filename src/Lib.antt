-- ===== src/Lib.antt =====
-- barehttp, an HTTP/1.0 server in C: a model of its code with the theorems about it.
--
-- `main` (src/server.c) reads the configuration, opens the log and serves. As it is compiled, with
-- USE_EPOLL, that is `epoll_server`: one thread that waits for the listening socket and the clients,
-- keeps a list of the clients with what each has sent, and answers a request when it is complete.
-- Without USE_EPOLL a connection is accepted by the loop in `main`, waits in the circular queue of
-- srclib/queue.c, and is taken out by a thread of the pool. Either way the request is answered by
-- srclib/http.c: the URL is checked, turned into a path, and a file of the root directory is sent,
-- or a script of it is run and its output sent. Every line of the log goes through srclib/logs.c,
-- every byte to or from a client through srclib/tcp.c.
--
-- The files and what they model:
--   Base, Base/*         names of the libraries, Boolean tests, lists and integers
--   CString, CString/*   bytes and the functions of the C library on strings that the code uses:
--                        `strcmp`, `strrchr`, `atoi`, `memcpy` to an array, `snprintf`, `%d`
--   Os, Os/*             the system calls, a parameter: a record of functions that answer each
--                        call from all the calls made before it. A program is a function on the
--                        trace of calls, so that what it did can be read off the trace. Os/Held
--                        counts what a trace has allocated and not freed, and Os/Pending tells
--                        which accepted connections are not closed
--   Tcp, Tcp/*           srclib/tcp.c
--   Logs, Logs/*         srclib/logs.c: `logs_print`, `get_client_ip_port`; Logs/File has
--                        `logs_init_file` and `logs_destroy`
--   Queue                srclib/queue.c: `struct _queue` and its operations, each as what a thread
--                        does with the mutex held
--   Queue/Inv, Refine, Active   its invariant, the list it implements, the active descriptors
--   Queue/Threads, Threads/*    the accept loop and the threads of the pool around the queue, as a
--                        step relation with any interleaving
--   Http                 the data of includes/http.h and includes/server.h
--   Http/Url, Mime, Request, Response, Files, Script, Handlers
--                        the functions of srclib/http.c, with their theorems in the child modules
--   Http/Pending, Leaks  which connections and which other descriptors an answer closes
--   Server/Worker        `thread_function` of src/server.c, one connection after the other, with the
--                        parser as a parameter; Worker/* hold its theorems
--   Server/Clients       the list of clients of the epoll loop, as the structures its links lead
--                        through, each with its address
--   Server/Epoll/Client  what `epoll_server` does when a client's descriptor is ready; Client/Frame,
--                        Client/Buffer, Overflow, Open and Progress are about one such event
--   Server/Epoll/Loop    the rest of `epoll_server`; Loop/Events and Loop/Invariant are about the
--                        list of clients, Loop/Open about their connections, Loop/Leaves about
--                        how long they stay, Loop/Quit, Exit and Start about the returns.
--                        Epoll/Files and Files/Rounds are about the files that it asks for
--   Server/Arrival       how the head of a request comes in pieces; Arrival/Pool, Loop and Same are
--                        about what the thread pool and `epoll_server` make of it
--   Server/Conf          `initialize_server_conf`, with libconfuse as a parameter; Conf/Stored is about
--                        the values that it stores
--   Server/Main          `main` as it is compiled, and in Main/Exit its returns
--   Server/Main/Pool     `main` without USE_EPOLL from the queue on; Pool/Memory, Exits and Balance
--                        are about what it allocates and frees, Pool/Events, Threads and
--                        Joined about its threads and the connections that it accepts
--   Http/Sample, Os/Sample   a configuration and a system for the tests, which stand in the modules
--                        called Examples
--
-- Correspondence. A function of the code keeps its name. A pointer with a length is the list of
-- the bytes; a string is the list of its bytes before the NUL; an array that is written to is the
-- list of all its bytes, so that what stands behind the NUL is seen (`poke`, `c_str`). What an array
-- holds before it is written is a parameter (`garbage`). An `int` result is an ℤ; a function with
-- an output parameter returns a pair or an Option. `perror` and `printf` are left out.
--
-- A trace holds the calls of one thread. What the others do in between shows in the answers of the
-- system, which may be any function of the trace; it does not show in what a trace says of
-- descriptors, so nothing is said of a number that another thread closes and gets again. In
-- `Server/Main/Pool` the call of `queue_push` is its last read of `sigint` and whether the connection is
-- put in the queue: how it waits, and what the threads make of it, is in `Queue/Threads`.
--
-- `http_parse_request` hands the parser the `int` in `num_headers` as a `size_t`, with the four bytes
-- behind it. `calloc` and the parser itself set them to zero; in the request of `thread_function` they
-- are not initialised before the first call. What the parser makes of them is part of the parameter
-- that stands for it, which may be any function of the bytes read and of `last_len`; where a theorem is
-- about both servers it is the same function for both.
--
-- What C leaves undefined and the epoll loop can come to (the structure of an event that is not in
-- the list, a negative length for `recv`, a NULL from `calloc`, a negative descriptor that `fcntl`
-- has accepted, a log name longer than its array) is an outcome of its own: `fault`, `faulted`,
-- `overrun`. The sum in the test for a request that is too long wraps at 32 bits. `malloc` and
-- `strdup` of the configuration succeed or fail together, and so do the three allocations of
-- `queue_create` where `Server/Main/Pool` calls it. `active_clients` is not initialised by the code, so
-- the list that it leads to at the start is an argument.
--
-- Loops run on fuel where the system decides how far a round gets. `send_loop` has the size of the
-- file, `write_loop` the number of bytes to write, and `read_loop`, `read_head` and `read_body` the
-- size of the buffer and one: each round that goes on makes progress by a byte. `wait_loop` of
-- `epoll_server` and `accept_loop` of `main` are meant to run for ever: their fuel is the number of
-- rounds that are looked at, and `running` or `none` is what they are when those are over, which the
-- theorems speak of as well.
--
-- What a theorem takes for granted of the system is a hypothesis with a name: `RecvIsBounded` (`recv`
-- hands over no more than it is asked for), `HasFreshFds` (no call answers a descriptor that is still
-- an accepted connection), `NeverWaits` (`recv` on a descriptor reported ready does not answer
-- EAGAIN), `IsFresh` (`calloc` answers no address that is in use) and `IsBounded` (`sendfile` sends no
-- more than it is asked to). A system of the tests meets each of them.
--
-- Not modelled: the parser (srclib/picohttpparser.c, a copy of another project), `http_debug_request`
-- and the calls of `printf` and `perror`, which only print, the mutex and the condition variables as
-- memory, and the static files, scripts and tests of the repository.
pub mod Base
pub mod CString
pub mod Os
pub mod Tcp
pub mod Logs
pub mod Http
pub mod Queue
pub mod Server
