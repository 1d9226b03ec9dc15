-- ===== src/Server/Listening.antt =====
-- How long the servers of src/server/server_tcp.cpp and src/server/server_udp.cpp listen, and which
-- requests they hand on.
use stats_rrdb.Prelude.{
  ℕ, suc, ◌-◌, ◌≡◌, refl, sym, ◌∙◌, inl, inr, Bool, Bool-cases, true, false, not, List, [], ◌∷◌,
  ◌++◌, append_nil, append_assoc, take, if◌then◌else◌,
}
use stats_rrdb.Server.{
  no_error, eof, failed, TcpServer, TcpEvent, accepted, tcp_read, start_tcp, handle_accept,
  handle_read, on_tcp, run_tcp, UdpServer, UdpEvent, start_udp, handle_receive, run_udp,
}

-- A handler is called only for an operation that is outstanding.
abbrev pub CanHappen : TcpEvent → TcpServer → Type 0
CanHappen (accepted error throws) s = s.accepting ≡ true
CanHappen (tcp_read error input bytes) s = Unit

abbrev pub AllCanHappen : List TcpEvent → TcpServer → Type 0
AllCanHappen [] s = Unit
AllCanHappen (e ∷ es) s = CanHappen e s × AllCanHappen es (on_tcp e s)

-- Some accept has failed.
abbrev pub accept_failed : List TcpEvent → Bool
accept_failed [] = false
accept_failed (accepted true throws ∷ es) = true
accept_failed (accepted false throws ∷ es) = accept_failed es
accept_failed (tcp_read error input bytes ∷ es) = accept_failed es

-- The requests that were read to their end.
abbrev pub requests : List TcpEvent → List (List ℕ)
requests [] = []
requests (accepted error throws ∷ es) = requests es
requests (tcp_read no_error input bytes ∷ es) = requests es
requests (tcp_read failed input bytes ∷ es) = requests es
requests (tcp_read eof input bytes ∷ es) = take bytes input ∷ requests es

-- Once it does not accept, nothing makes it accept again.
deaf :
    (es : List TcpEvent) (s : TcpServer)
    → s.accepting ≡ false
    → AllCanHappen es s
    → (run_tcp es s).accepting ≡ false
unfolding run_tcp on_tcp handle_read
deaf [] s off all = off
deaf (accepted error throws ∷ es) s off all = cc
deaf (tcp_read no_error input bytes ∷ es) s off all =
    deaf es (record s { reads = s.reads - 1 }) off all.1
deaf (tcp_read failed input bytes ∷ es) s off all =
    deaf es (record s { reads = s.reads - 1 }) off all.1
deaf (tcp_read eof input bytes ∷ es) s off all =
    deaf es (record s { reads = s.reads - 1; tasks = s.tasks ++ take bytes input ∷ [] }) off all.1

listens :
    (es : List TcpEvent) (s : TcpServer)
    → s.accepting ≡ true
    → AllCanHappen es s
    → (run_tcp es s).accepting ≡ not (accept_failed es)
unfolding run_tcp on_tcp handle_accept handle_read
listens [] s on all = on
listens (accepted true throws ∷ es) s on all = deaf es (record s { accepting = false }) refl all.1
listens (accepted false true ∷ es) s on all = listens es (record s { accepting = true }) refl all.1
listens (accepted false false ∷ es) s on all =
    listens es (record s { accepting = true; reads = suc s.reads }) refl all.1
listens (tcp_read no_error input bytes ∷ es) s on all =
    listens es (record s { reads = s.reads - 1 }) on all.1
listens (tcp_read failed input bytes ∷ es) s on all =
    listens es (record s { reads = s.reads - 1 }) on all.1
listens (tcp_read eof input bytes ∷ es) s on all =
    listens es (record s { reads = s.reads - 1; tasks = s.tasks ++ take bytes input ∷ [] }) on all.1

hands_on : (es : List TcpEvent) (s : TcpServer) → (run_tcp es s).tasks ≡ s.tasks ++ requests es
unfolding run_tcp on_tcp handle_accept handle_read
hands_on [] s = sym (append_nil s.tasks)
hands_on (accepted true throws ∷ es) s = hands_on es (record s { accepting = false })
hands_on (accepted false true ∷ es) s = hands_on es (record s { accepting = true })
hands_on (accepted false false ∷ es) s =
    hands_on es (record s { accepting = true; reads = suc s.reads })
hands_on (tcp_read no_error input bytes ∷ es) s = hands_on es (record s { reads = s.reads - 1 })
hands_on (tcp_read failed input bytes ∷ es) s = hands_on es (record s { reads = s.reads - 1 })
hands_on (tcp_read eof input bytes ∷ es) s =
    hands_on es (record s { reads = s.reads - 1; tasks = s.tasks ++ take bytes input ∷ [] })
    ∙ append_assoc s.tasks (take bytes input ∷ []) (requests es)

-- After any events that can happen to a TCP server that has started: it awaits a connection exactly if
-- no accept has failed, and the thread pool has got the requests that were read to their end, in order.
pub run_tcp_lem :
    (es : List TcpEvent)
    → AllCanHappen es start_tcp
    → ((run_tcp es start_tcp).accepting ≡ not (accept_failed es))
      × ((run_tcp es start_tcp).tasks ≡ requests es)
unfolding start_tcp
run_tcp_lem es all = (listens es start_tcp refl all, hands_on es start_tcp)

-- The same for datagrams.
abbrev pub AllReceived : List UdpEvent → UdpServer → Type 0
AllReceived [] s = Unit
AllReceived (e ∷ es) s = (s.receiving ≡ true) × AllReceived es (handle_receive e s)

abbrev pub receive_failed : List UdpEvent → Bool
receive_failed [] = false
receive_failed (e ∷ es) = if e.error then true else receive_failed es

abbrev pub datagrams : List UdpEvent → List (List ℕ)
datagrams [] = []
datagrams (e ∷ es) = if e.error then datagrams es else take e.bytes e.input ∷ datagrams es

handle_receive-error :
    (e : UdpEvent) (s : UdpServer)
    → e.error ≡ true
    → handle_receive e s ≡ record s { receiving = false }
unfolding handle_receive
handle_receive-error e s h = rw h

handle_receive-fine :
    (e : UdpEvent) (s : UdpServer)
    → e.error ≡ false
    → handle_receive e s ≡ record { receiving = true; tasks = s.tasks ++ take e.bytes e.input ∷ [] }
unfolding handle_receive
handle_receive-fine e s h = rw h

deaf_udp :
    (es : List UdpEvent) (s : UdpServer)
    → s.receiving ≡ false
    → AllReceived es s
    → (run_udp es s).receiving ≡ false
unfolding run_udp
deaf_udp [] s off all = off
deaf_udp (e ∷ es) s off all = cc

receives :
    (es : List UdpEvent) (s : UdpServer)
    → s.receiving ≡ true
    → AllReceived es s
    → (run_udp es s).receiving ≡ not (receive_failed es)
unfolding run_udp
receives [] s on all = on
receives (e ∷ es) s on all = elim (Bool-cases e.error) [
  | inl bad ↦ rw bad (
      deaf_udp es (record s { receiving = false }) refl
        (rw (handle_receive-error e s bad) at all.1))
  | inr fine ↦ rw fine (
      receives es (record { receiving = true; tasks = s.tasks ++ take e.bytes e.input ∷ [] }) refl
        (rw (handle_receive-fine e s fine) at all.1))
]

hands_on_udp : (es : List UdpEvent) (s : UdpServer) → (run_udp es s).tasks ≡ s.tasks ++ datagrams es
unfolding run_udp
hands_on_udp [] s = sym (append_nil s.tasks)
hands_on_udp (e ∷ es) s = elim (Bool-cases e.error) [
  | inl bad ↦ rw bad (hands_on_udp es (record s { receiving = false }))
  | inr fine ↦ rw fine (
      hands_on_udp es (record { receiving = true; tasks = s.tasks ++ take e.bytes e.input ∷ [] })
      ∙ append_assoc s.tasks (take e.bytes e.input ∷ []) (datagrams es))
]

-- After any events that can happen to a UDP server that has started: it awaits a datagram exactly if no
-- receive has failed, and the thread pool has got those that were received, in order.
pub run_udp_lem :
    (es : List UdpEvent)
    → AllReceived es start_udp
    → ((run_udp es start_udp).receiving ≡ not (receive_failed es))
      × ((run_udp es start_udp).tasks ≡ datagrams es)
unfolding start_udp
run_udp_lem es all = (receives es start_udp refl all, hands_on_udp es start_udp)
