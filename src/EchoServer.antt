-- ===== src/EchoServer.antt =====
-- networking/socket/tcp/echoserver/myServer.c: a server with a thread for each client, which sends back what comes in.
-- What the calls answer is an argument; the threads share nothing. Output and the handler of SIGINT, which ends the
-- process, are left out.
mod Laws
mod Tests
use tpt.Common.{
  ℕ, ◌+◌, Bool, true, false, not, ◌&&◌, ◌||◌, List, [], ◌∷◌, ◌++◌, length, take, drop, replicate, ℤ,
  pos, negsuc, minus, is_neg, int_eq, leb, ◌==◌, if◌then◌else◌,
}

abbrev pub max_length : ℕ
max_length = 1024

pub data BufferType : Type 0 where
  send_buffer : BufferType
  recv_buffer : BufferType

pub data SocketOption : Type 0 where
  so_sndbuf : SocketOption
  so_rcvbuf : SocketOption

-- `setsockopt` and `getsockopt` say what the call returns for an option, with the size behind the second.
unfoldable pub set_socket_buffer_size : (setsockopt : SocketOption → ℤ) → BufferType → ℤ
set_socket_buffer_size setsockopt send_buffer = setsockopt so_sndbuf
set_socket_buffer_size setsockopt recv_buffer = setsockopt so_rcvbuf

unfoldable pub get_socket_buffer_size : (getsockopt : SocketOption → ℤ × ℕ) → BufferType → ℤ × ℕ
get_socket_buffer_size getsockopt send_buffer = getsockopt so_sndbuf
get_socket_buffer_size getsockopt recv_buffer = getsockopt so_rcvbuf

abbrev pub lower : ℕ → ℕ
lower c = if leb 65 c && leb c 90 then c + 32 else c

-- strncasecmp(buf, "bye", 3) == 0.
abbrev pub says_bye : List ℕ → Bool
says_bye (a ∷ b ∷ c ∷ rest) = (lower a == 98) && ((lower b == 121) && (lower c == 101))
says_bye _ = false

-- recv fails, or stores bytes; none of them is the end of the stream.
pub data Recv : Type 0 where
  fails : Recv
  got : (bytes : List ℕ) → Recv

-- A round of the loop: what recv does, and what send returns.
abbrev pub Round : Type 0
Round = Recv × ℤ

-- What the client gets back, and whether the thread has ended: then it has closed the socket and freed its data.
pub record Handled : Type 0 where
  pub echoed : List ℕ
  pub ended : Bool

abbrev pub over : Handled
over = record { echoed = []; ended = true }

-- send takes as many of the bytes as it returns.
abbrev pub sent : ℤ → List ℕ → List ℕ
sent (pos n) bytes = take n bytes
sent (negsuc n) bytes = []

-- recv stores at the start of the buffer, and what stood behind stays.
abbrev pub received : List ℕ → List ℕ → List ℕ
received bytes buf = bytes ++ drop (length bytes) buf

-- Behind a recv that has stored `bytes`, which are in `buf`, with `rest` for the loop's next rounds.
unfoldable pub answer : (bytes buf : List ℕ) → (send : ℤ) → (rest : Handled) → Handled
answer bytes buf send rest =
    if length bytes == 0
    then over
    else if says_bye buf
    then over
    else if is_neg send
    then over
    else record rest { echoed = sent send (take (length bytes) buf) ++ rest.echoed }

unfoldable pub handler_loop : List Round → (buf : List ℕ) → Handled
handler_loop [] buf = record { echoed = []; ended = false }
handler_loop ((fails, send) ∷ rs) buf = over
handler_loop ((got bytes, send) ∷ rs) buf =
    let buf' = received bytes buf in answer bytes buf' send (handler_loop rs buf')

unfoldable pub handler : List Round → Handled
handler rs = handler_loop rs (replicate max_length 0)

-- A client: the results of accept and of getsockopt for IP_PKTINFO, whether calloc finds memory, the result of
-- pthread_create, and the rounds of its thread. The results of the calls for the size of the buffer are only printed.
pub record Client : Type 0 where
  pub accept : ℤ
  pub pktinfo : ℤ
  pub memory : Bool
  pub pthread : ℤ
  pub rounds : List Round

-- How main stands: it waits for a client, it has returned -1, which ends the process with all of its threads, or it
-- has written through NULL, which ends the process too.
pub data Main : Type 0 where
  waiting : Main
  returned : Main
  fault : Main

-- What the threads that have been started do, in order.
pub record Server : Type 0 where
  pub threads : List Handled
  pub state : Main

abbrev pub ends : Main → Server
ends m = record { threads = []; state = m }

-- The result of calloc is not tested, and that of pthread_create not looked at: a client without a thread keeps
-- its socket and its data.
unfoldable pub accept_loop : List Client → Server
accept_loop [] = ends waiting
accept_loop (c ∷ cs) =
    let rest = accept_loop cs in
    if is_neg c.accept
    then ends returned
    else if not (int_eq c.pktinfo (pos 0))
    then ends returned
    else if not c.memory
    then ends fault
    else if int_eq c.pthread (pos 0)
    then record rest { threads = handler c.rounds ∷ rest.threads }
    else rest

-- The results of socket, inet_aton, bind and listen.
pub record Calls : Type 0 where
  pub socket : ℤ
  pub aton : Bool
  pub bind : ℤ
  pub listen : ℤ

unfoldable pub main : Calls → List Client → Server
main c cs =
    if is_neg c.socket
    then ends returned
    else if not c.aton
    then ends returned
    else if is_neg c.bind
    then ends returned
    else if is_neg c.listen
    then ends returned
    else accept_loop cs
