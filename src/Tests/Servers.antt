-- ===== src/Tests/Servers.antt =====
-- The servers of src/server and the thread pool on a few events, and two requests.
use Prim.Native.String.{String}
use stats_rrdb.Prelude.{ℕ, ◌≡◌, refl, not, true, false, List, [], ◌∷◌, ◌++◌, replicate, arith}
use stats_rrdb.Prelude.Int.{ℤ, pos}
use stats_rrdb.Prelude.Result.{Error, Result, ok}
use stats_rrdb.Value.{nat_value}
use stats_rrdb.Policy.{PolicyElem}
use stats_rrdb.Rrdb.{normalize_name}
use stats_rrdb.Statement.{Statement, show_policy}
use stats_rrdb.Pool.{
  Pool, new_pool, count_thread, count_job, post_task, take_task, count_thread_back, count_finished,
  enters, counts, posts, takes, returns, finishes, created, stepped,
}
use stats_rrdb.Pool.Counts.{IsCounted, Reachable-IsCounted}
use stats_rrdb.Server.{
  eof, no_error, TcpEvent, accepted, tcp_read, start_tcp, handle_accept, handle_read, on_tcp,
  run_tcp, UdpEvent, start_udp, handle_receive, run_udp,
}
use stats_rrdb.Server.Listening.{
  accept_failed, requests, run_tcp_lem, receive_failed, datagrams, run_udp_lem,
}
use stats_rrdb.Server.Requests.{CreatedShown, serve_udp-serve_tcp}
use stats_rrdb.Tests.Files.{nat_bytes}
use stats_rrdb.Tests.Maps.{policy, usable, stores, empty_db, empty_db-IsRrdb}
use stats_rrdb.Tests.Statements.{outside}
use stats_rrdb.Status.{Sources, Item, rrdb_items, udp_items, tcp_items, uptime_items, update_status}
use stats_rrdb.Status.Reported.{Reported, update_status-Reported}

-- One job from its begin to its end.
abbrev waiting : Pool
waiting = post_task (count_job (count_thread (new_pool 2)))

abbrev done : Pool
done = count_finished (count_thread_back (take_task waiting))

Reachable-IsCounted_example : IsCounted 2 done
unfolding new_pool count_thread count_job post_task take_task count_thread_back
Reachable-IsCounted_example = Reachable-IsCounted (
    stepped
      (stepped
        (stepped
          (stepped
            (stepped (stepped created (enters (new_pool 2)))
              (counts {n = 0} (count_thread (new_pool 2)) refl))
            (posts {n = 0} (count_job (count_thread (new_pool 2))) refl))
          (takes {n = 0} {k = 1} waiting refl refl))
        (returns {n = 0} (take_task waiting) refl))
      (finishes {n = 0} (count_thread_back (take_task waiting)) refl))

-- Two connections, a request, one that fills the buffer, and an accept that fails.
abbrev tcp_events : List TcpEvent
tcp_events =
    accepted false false
    ∷ tcp_read eof (replicate 9 7) 4
    ∷ accepted false false
    ∷ tcp_read no_error (replicate 9 7) 9
    ∷ accepted true false
    ∷ []

run_tcp_lem_example :
    ((run_tcp tcp_events start_tcp).accepting ≡ not (accept_failed tcp_events))
    × ((run_tcp tcp_events start_tcp).tasks ≡ requests tcp_events)
unfolding start_tcp on_tcp handle_accept handle_read
run_tcp_lem_example = run_tcp_lem tcp_events (refl, (tt, (refl, (tt, (refl, tt)))))

abbrev udp_events : List UdpEvent
udp_events =
    record { error = false; input = replicate 9 7; bytes = 4 }
    ∷ record { error = true; input = []; bytes = 0 }
    ∷ []

run_udp_lem_example :
    ((run_udp udp_events start_udp).receiving ≡ not (receive_failed udp_events))
    × ((run_udp udp_events start_udp).tasks ≡ datagrams udp_events)
unfolding start_udp handle_receive
run_udp_lem_example = run_udp_lem udp_events (refl, (refl, tt))

abbrev what : Error → List ℕ
what e = []

abbrev split : String → List String
split s = "c" ∷ "cpu" ∷ "10 sec for 1 min" ∷ []

abbrev cast_value : String → Result ℕ
cast_value s = ok 0

abbrev cast_ts : String → Result ℤ
cast_ts s = ok (pos 0)

abbrev parse_policy : String → Result (List PolicyElem)
parse_policy s = ok policy

abbrev parse_query : String → Result (Statement ℕ)
parse_query s = ok (show_policy "cpu")

serve_udp-serve_tcp_example :
    CreatedShown outside stores what split cast_value cast_ts parse_policy parse_query empty_db
      false
      (pos 1)
      (pos 2)
      "c|cpu|10 sec for 1 min"
      "SHOW POLICY \"cpu\""
      policy
unfolding normalize_name
serve_udp-serve_tcp_example =
    serve_udp-serve_tcp outside stores what split cast_value cast_ts parse_policy parse_query
      empty_db false (pos 1) (pos 2) "c|cpu|10 sec for 1 min" "SHOW POLICY \"cpu\"" "cpu"
      "10 sec for 1 min" policy refl refl refl empty_db-IsRrdb usable refl (omega arith) refl

-- Caches with nothing in them, and two idle pools.
abbrev sources : Sources ℕ ℕ
sources = record {
  files = record {
    lru = record { entries = []; size = 0; hits = 3; misses = 1 };
    path = [];
    max_size = 8;
  };
  tuples = record {
    lru = record { entries = []; size = 0; hits = 0; misses = 0 };
    max_used_memory = 64;
    used_memory = 0;
  };
  udp = new_pool 2;
  tcp = new_pool 4;
  start_time = pos 5;
}

abbrev own_items : List (Item ℕ ℕ)
own_items = udp_items ++ (tcp_items ++ (rrdb_items ++ uptime_items (pos 9)))

update_status-Reported_example :
    Reported outside stores own_items empty_db (update_status outside (pos 9) sources empty_db)
unfolding normalize_name
update_status-Reported_example =
    update_status-Reported outside stores (pos 9) sources empty_db empty_db-IsRrdb (
      (refl, omega arith),
      (
        (refl, omega arith),
        (
          (refl, omega arith),
          (
            (refl, omega arith),
            (
              (refl, omega arith),
              (
                (refl, omega arith),
                (
                  (refl, omega arith),
                  (
                    (refl, omega arith),
                    (
                      (refl, omega arith),
                      (
                        (refl, omega arith),
                        (
                          (refl, omega arith),
                          (
                            (refl, omega arith),
                            (
                              (refl, omega arith),
                              (
                                (refl, omega arith),
                                (
                                  (refl, omega arith),
                                  (
                                    (refl, omega arith),
                                    ((refl, omega arith), ((refl, omega arith), tt)),
                                  ),
                                ),
                              ),
                            ),
                          ),
                        ),
                      ),
                    ),
                  ),
                ),
              ),
            ),
          ),
        ),
      ),
    )
