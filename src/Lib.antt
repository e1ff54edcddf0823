-- ===== src/Lib.antt =====
-- socket++, a C++ library of sockets as stream buffers (socket++/), with clients for SMTP and
-- FTP on top.
--
-- The program's parts. A `sockbuf` (socket++/sockstream.cpp) is a `std::streambuf` over a
-- socket descriptor: characters that are put collect in the put area until `sync` hands them to
-- `write`, and `underflow` refills the get area by `read`. A `sockinetbuf`
-- (socket++/sockinet.cpp) adds internet addresses and the resolver, a `protocolbuf`
-- (socket++/protocol.cpp) the name of a service, and `smtpbuf` (socket++/smtp.cpp) and `ftpbuf`
-- (socket++/ftp.cpp) write commands into the buffer and read replies out of it. Errors are
-- thrown as `err`, which sorts errno into classes (socket++/socketerr.cpp). `sig`
-- (socket++/sig.cpp) keeps lists of handlers for each signal, and `Fork` (socket++/fork.cpp) a
-- list of child processes.
--
-- The files.
-- - Common and its children: numbers, lists, text, and actions that change a state and may
--   throw, `Action S A`.
-- - Errno, Os: the error numbers and the system calls. The system is the parameter `Os`, a
--   record of one function for each call over a state of its own; Os.Laws says what the code
--   relies on of `read`, `write`, `select` and `ioctl`.
-- - Sockbuf.State, Io, Buffer, Lifecycle, Options: `sockbuf`. `Sock` has the shared block
--   `sockcnt`, the two areas with their pointers as offsets, the name, errno and the system's
--   state. Io has the unbuffered calls, Buffer the virtual functions of `streambuf`, Lifecycle
--   the constructors, the destructor, `bind`, `connect`, `listen`, `accept` and `shutdown`,
--   Options the rest.
-- - Sockbuf.Session: programs that call a `sockbuf`, and two queues as their specification;
--   Sockbuf.Manipulators: `crlf` and `lfcr`.
-- - Sockbuf.Output, Sockbuf.Input, Sockbuf.Unmoved, Sockbuf.Options.Flags: the theorems. The
--   output side is specified by its history, what the system has accepted followed by what the
--   put area holds; the input side by its stream, what is unread in the get area followed by
--   what the system will deliver.
-- - Filelike: socket++/filelikebuf.cpp, whose state has the ends of the buffers as pointers
--   that may be null; Filelike.First says what its first flush does, by Filelike.Alike, which
--   relates its `write` to that of `sockbuf`, and Filelike.Fresh what its constructor leaves.
-- - Errors: socket++/socketerr.cpp, each `switch` as the list of its labels.
-- - Sig: socket++/sig.cpp over the parameter `SigOs`, the calls of <signal.h>; handlers are the
--   addresses of their objects. Sig.Handled has its operations in any order.
-- - Fork: socket++/fork.cpp over the parameter `ForkOs`; Fork.Steps has its operations as a
--   step relation, and Fork.Reaping is about the handler of `SIGCHLD`.
-- - Inet, Protocol: socket++/sockinet.cpp, of which Inet.Address has the addresses, and
--   socket++/protocol.cpp, over the parameter `Resolver`; Protocol.Connect says where its
--   `connect` functions lead.
-- - Smtp, Ftp: the two clients, a state each of the `sockbuf` and what has gone to the output
--   stream; Ftp.Transfer has the data connections. Lines says what a line of text that ends in
--   <CRLF> is; Ftp.Reply is `get_response` on one line, and Ftp.Replies on whole replies of
--   several. Smtp.Received has the receiver of RFC 821 by which `data` is judged. Smtp.Stream
--   is the class `smtp`, an `iostream` on an `smtpbuf`, with `std::istream::getline`.
-- - Unix: socket++/sockunix.cpp.
-- - Echo: socket++/echo.cpp; its loop over a connection, and in Echo.Server `serve_clients`, in
--   which a process is followed through `fork` by what the system returns. The signals
--   `SIGCHLD` that arrive in a round, any number of them, run `reaper_nohang` behind its `fork`
--   (`deliver`): up to the next `fork` only the handler uses the list.
-- - Streams: the stream classes of socket++/sockstream.h, sockinet.cpp and sockunix.cpp.
-- - Tests: a small system with which the models run, and the witnesses.
--
-- Conventions. The code is modelled as it is compiled on Linux without USE_WINSOCK, WIN32 and
-- __CYGWIN__ and with HAVE_SIGACTION; an `int` is 32 bits, a `long` 64, and the host is
-- little-endian. A null pointer is `none`, a string its characters up to the final NUL, and a
-- call that returns -1 is `fails` with the errno it sets. C++ overloads have names of their
-- own: `debug (bool)` is `set_debug`, and `bind` has one name for each kind of argument.
--
-- Fuel. A loop of the source takes a number of rounds. `write` needs one round more than it has
-- bytes, as each transfer takes at least one; `xsputn` and `sync` inside need fuel above the
-- buffer's size for it, and `xsputn` and `xsgetn` themselves one round more or two than
-- characters, as each flush empties the buffer and each refill brings a character.
-- `get_response` needs a round for each line, and `operator <<` of `smtp` one more than lines,
-- as it ends at the first line that it does not read. `bind_until_success` needs as many rounds
-- as reach a free port, and has no bound where there is none.
--
-- Not modelled. socket++/processstream.cpp, whose branch for POSIX names what is not declared
-- and stands on the functions of socket++/pipestream.h, which the repository does not define;
-- the stream classes of socket++/filelikebuf.h, which only hand a buffer to iostreams; the
-- branches for Windows; negative port numbers; in `serve_clients` a `SIGTERM`, whose handler
-- `commit_suicide` stands by itself in Fork, and the `sleep (300)` before `exit`; the
-- signedness of `char`: a byte of 128 or more stands for itself, also where the FTP client
-- returns one as its reply's code; the memory that `delete []` frees.
pub mod Common
pub mod Errno
pub mod Os
pub mod Sockbuf
pub mod Filelike
pub mod Errors
pub mod Sig
pub mod Inet
pub mod Protocol
pub mod Unix
pub mod Streams
pub mod Fork
pub mod Echo
pub mod Lines
pub mod Smtp
pub mod Ftp
pub mod Tests
