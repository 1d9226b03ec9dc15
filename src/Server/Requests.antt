-- ===== src/Server/Requests.antt =====
-- A request over UDP and one over TCP, from the text to the answer.
use Prim.Native.String.{String}
use stats_rrdb.Prelude.{
  ℕ, ◌≡◌, inl, refl, ap, Bool, true, false, none, some, List, [], ◌∷◌, if◌then◌else◌,
}
use stats_rrdb.Prelude.Int.{ℤ}
use stats_rrdb.Prelude.Result.{Error, Result, ok, ◌>>=◌}
use stats_rrdb.Value.{Value}
use stats_rrdb.Bytes.{Bytes}
use stats_rrdb.Metric.Create.Written.{Stores, IsName}
use stats_rrdb.Text.{str, codes}
use stats_rrdb.Policy.{PolicyElem}
use stats_rrdb.Interval.{retention_policy_write}
use stats_rrdb.Metric.{Metric, get_policy}
use stats_rrdb.Rrdb.{Rrdb, lookup, get_metric, find_metric}
use stats_rrdb.Rrdb.Laws.{IsUsable, IsRrdb, DbCreated, create_metric-DbCreated}
use stats_rrdb.Statement.{Statement, create, show_policy, statement_update_parse}
use stats_rrdb.Statement.Commands.{reads_create, statement_update_parse_iff}
use stats_rrdb.Execute.{Outside, execute, execute_statement}
use stats_rrdb.Execute.Spec.{normal}
use stats_rrdb.Server.{serve_tcp, serve_udp, respond_tcp, respond_udp}

module _ {W : Type 0} ⦃v : Value W⦄ ⦃b : Bytes W⦄ (x : Outside W) (stores : Stores x.store)
    (what : Error → List ℕ) (split : String → List String) (cast_value : String → Result W)
    (cast_ts : String → Result ℤ) (parse_policy : String → Result (List PolicyElem))
    (parse_query : String → Result (Statement W)) where
  -- A datagram that creates a metric, and a query for its policy.
  pub record CreatedShown (db : Rrdb W) (send_success_response : Bool) (now later : ℤ)
      (datagram query : String) (policy : List PolicyElem) : Type 0 where
    pub db' : Rrdb W
    pub is_rrdb : IsRrdb db'
    pub created :
        serve_udp x what
          (statement_update_parse split cast_value cast_ts parse_policy)
          send_success_response
          now
          datagram
          db
        ≡ (db', if send_success_response then some (str "OK" ∷ []) else none)
    pub shown :
        serve_tcp x what parse_query later query db'
        ≡ (db', respond_tcp what (retention_policy_write policy))

  udp_created :
      (db db' : Rrdb W) (m : Metric W) (send_success_response : Bool) (now : ℤ) (datagram : String)
      (st : Statement W)
      → statement_update_parse split cast_value cast_ts parse_policy datagram ≡ ok st
      → execute x now st db ≡ (db', ok [])
      → serve_udp x what
          (statement_update_parse split cast_value cast_ts parse_policy)
          send_success_response
          now
          datagram
          db
        ≡ (db', if send_success_response then some (str "OK" ∷ []) else none)
  unfolding serve_udp respond_udp execute_statement
  udp_created db db' m true now datagram st parsed done =
      rw (serve_udp, execute_statement, parsed, done)
  udp_created db db' m false now datagram st parsed done =
      rw (serve_udp, execute_statement, parsed, done)

  policy_shown :
      (db : Rrdb W) (m : Metric W) (later : ℤ) (query name : String) (policy : List PolicyElem)
      → parse_query query ≡ ok (show_policy name)
      → lookup db.metrics (normal x (codes name)) ≡ some m
      → get_policy m ≡ ok policy
      → serve_tcp x what parse_query later query db
        ≡ (db, respond_tcp what (retention_policy_write policy))
  unfolding serve_tcp execute_statement execute get_metric find_metric
  policy_shown db m later query name policy asked found kept =
      rw (serve_tcp, execute_statement, asked, execute, get_metric, find_metric, found, kept)

  -- A datagram of the command `c`, a name that passes its check, has a length of 1 to
  -- 65,527 and is free, and a usable policy: where files can be written, nothing or OK is sent back, as
  -- configured, the map stays in order, and a query that the grammar reads as SHOW POLICY of the name
  -- is answered with that policy as retention_policy_write writes it.
  pub serve_udp-serve_tcp :
      (db : Rrdb W) (send_success_response : Bool) (now later : ℤ)
      (datagram query name policy_text : String) (policy : List PolicyElem)
      → split datagram ≡ "c" ∷ name ∷ policy_text ∷ []
      → parse_policy policy_text ≡ ok policy
      → parse_query query ≡ ok (show_policy name)
      → IsRrdb db
      → IsUsable policy
      → x.check_name (normal x (codes name)) ≡ true
      → IsName (normal x (codes name))
      → lookup db.metrics (normal x (codes name)) ≡ none
      → CreatedShown db send_success_response now later datagram query policy
  unfolding execute serve_tcp execute_statement get_metric find_metric
  serve_udp-serve_tcp db send_success_response now later datagram query name policy_text policy
        fields parsed asked i u checked named absent =
      let c : DbCreated db (normal x (codes name)) policy _ =
        create_metric-DbCreated x.trim x.to_lower x.check_name x.to_filename x.store stores db
          (codes name) policy true i u checked named absent in
      record {
        db' = c.db';
        is_rrdb = c.is_rrdb;
        created =
            udp_created db c.db' c.metric send_success_response now datagram
              (create name (some policy))
              ((statement_update_parse_iff split cast_value cast_ts parse_policy datagram
                  (create name (some policy))).1
                (rw fields (reads_create "c" name policy_text policy (inl refl) parsed)))
              (ap (λ q. (q.0, do m ← q.1; ok [])) c.returns);
        shown = policy_shown c.db' c.metric later query name policy asked c.found c.policy_kept;
      }
