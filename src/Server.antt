-- ===== src/Server.antt =====
-- server_tcp and server_udp of src/server/server_tcp.cpp and src/server/server_udp.cpp: the handlers
-- that Boost.Asio calls, and what a connection answers. An operation on a socket that has been begun
-- is outstanding until its handler is called, with an error or not. A request's bytes are those of the
-- connection's input buffer.
pub mod Listening
pub mod Requests
use Prim.Native.String.{String}
use stats_rrdb.Prelude.{
  ℕ, suc, ◌-◌, Bool, true, false, not, ◌&&◌, Option, none, some, List, [], ◌∷◌, ◌++◌, length, take,
  ◌==◌, if◌then◌else◌,
}
use stats_rrdb.Prelude.Int.{ℤ}
use stats_rrdb.Prelude.Result.{Error, Result, ok, err}
use stats_rrdb.Value.{Value}
use stats_rrdb.Bytes.{Bytes}
use stats_rrdb.Text.{Chunk, str, num, int, nat, text, codes}
use stats_rrdb.Rrdb.{Rrdb}
use stats_rrdb.Statement.{Statement}
use stats_rrdb.Execute.{Outside, execute_statement}

-- The error of a read: none, boost::asio::error::eof, or another.
pub data ReadError : Type 0 where
  no_error : ReadError
  eof : ReadError
  failed : ReadError

-- `accepting`: an async_accept is outstanding; `reads`: the async_reads that are; `tasks`: what the
-- thread pool has got.
pub record TcpServer : Type 0 where
  pub accepting : Bool
  pub reads : ℕ
  pub tasks : List (List ℕ)

pub data TcpEvent : Type 0 where
  -- handle_accept with an error or not; async_read throws or not.
  accepted : (error throws : Bool) → TcpEvent
  -- handle_read with what the input buffer holds, and how many bytes of it were read.
  tcp_read : ReadError → List ℕ → ℕ → TcpEvent

abbrev pub accept : TcpServer → TcpServer
accept s = record s { accepting = true }

-- start, but for the thread pool
unfoldable pub start_tcp : TcpServer
start_tcp = record { accepting = true; reads = 0; tasks = [] }

unfoldable pub handle_accept : Bool → Bool → TcpServer → TcpServer
handle_accept true throws s = record s { accepting = false }
handle_accept false true s = accept s
handle_accept false false s = accept (record s { reads = suc s.reads })

-- A read that fills the buffer ends with no error, and is given up.
unfoldable pub handle_read : ReadError → List ℕ → ℕ → TcpServer → TcpServer
handle_read failed input bytes s = record s { reads = s.reads - 1 }
handle_read no_error input bytes s = record s { reads = s.reads - 1 }
handle_read eof input bytes s = record s {
  reads = s.reads - 1;
  tasks = s.tasks ++ take bytes input ∷ [];
}

unfoldable pub on_tcp : TcpEvent → TcpServer → TcpServer
unfolding handle_accept handle_read
on_tcp (accepted error throws) s = handle_accept error throws s
on_tcp (tcp_read error input bytes) s = handle_read error input bytes s

pub run_tcp : List TcpEvent → TcpServer → TcpServer
unfolding on_tcp
run_tcp [] s = s
run_tcp (e ∷ es) s = run_tcp es (on_tcp e s)

pub record UdpServer : Type 0 where
  pub receiving : Bool
  pub tasks : List (List ℕ)

-- handle_receive with an error or not, what the input buffer holds, and the size of the datagram.
pub record UdpEvent : Type 0 where
  pub error : Bool
  pub input : List ℕ
  pub bytes : ℕ

unfoldable pub start_udp : UdpServer
start_udp = record { receiving = true; tasks = [] }

unfoldable pub handle_receive : UdpEvent → UdpServer → UdpServer
handle_receive e s =
    if e.error
    then record s { receiving = false }
    else record { receiving = true; tasks = s.tasks ++ take e.bytes e.input ∷ [] }

pub run_udp : List UdpEvent → UdpServer → UdpServer
unfolding handle_receive
run_udp [] s = s
run_udp (e ∷ es) s = run_udp es (handle_receive e s)

module _ {W : Type 0} where
  -- `_output_buffer.empty()`: a number writes a digit at least.
  abbrev pub is_blank : List (Chunk W) → Bool
  is_blank [] = true
  is_blank (str s ∷ cs) = (length (codes s) == 0) && is_blank cs
  is_blank (text t ∷ cs) = (length t == 0) && is_blank cs
  is_blank (num x ∷ cs) = false
  is_blank (int i ∷ cs) = false
  is_blank (nat n ∷ cs) = false

  -- connection_tcp::run, behind the call of the database. `what` is the text of an exception.
  pub respond_tcp : (Error → List ℕ) → Result (List (Chunk W)) → List (Chunk W)
  respond_tcp what (err e) = str "ERROR: " ∷ text (what e) ∷ []
  respond_tcp what (ok out) = if is_blank out then str "OK" ∷ [] else out

  -- connection_udp::run: `none` if nothing is sent. A statement that comes over UDP writes nothing, so
  -- that the output is empty when one throws.
  pub respond_udp : (Error → List ℕ) → Bool → Result (List (Chunk W)) → Option (List (Chunk W))
  respond_udp what send_success_response (err e) = some (str "ERROR: " ∷ text (what e) ∷ [])
  respond_udp what send_success_response (ok out) =
      if is_blank out && not send_success_response
      then none
      else some (if is_blank out then str "OK" ∷ [] else out)

module _ {W : Type 0} ⦃v : Value W⦄ ⦃b : Bytes W⦄ (x : Outside W) (what : Error → List ℕ) where
  pub serve_tcp : (String → Result (Statement W)) → ℤ → String → Rrdb W → Rrdb W × List (Chunk W)
  unfolding respond_tcp
  serve_tcp parse now input db =
      let (db', r) = execute_statement x parse now input db in (db', respond_tcp what r)

  pub serve_udp :
      (String → Result (Statement W))
      → Bool
      → ℤ
      → String
      → Rrdb W
      → Rrdb W × Option (List (Chunk W))
  unfolding respond_udp
  serve_udp parse send_success_response now input db =
      let (db', r) = execute_statement x parse now input db in
      (db', respond_udp what send_success_response r)
