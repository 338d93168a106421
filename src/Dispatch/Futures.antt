-- ===== src/Dispatch/Futures.antt =====
-- dispatcher.go: every future is resolved once, over every interleaving of `Submit`, the rounds of
-- `recvLoop`, the end of the stream and `Close`.
use gta.Base.{
  ℕ, ◌+◌, ◌<◌, ◌≡◌, refl, ap, sym, subst, String, Bool, true, not, Option, none, some, List, [],
  ◌∷◌, ◌++◌, ◌≢◌, arith, eqb, ltb, ◌==◌, string_eq, if_elim,
}
use gta.Base.Dict.{Dict, lookup}
use gta.Base.Distinct.{Distinct}
use gta.Fifo.{keys, Distinct-insert, Distinct-delete}
use gta.Tally.{bit, tally, tally-insert_new, tally-insert_old, tally-delete}
use gta.Dispatch.{
  Packet, Response, PendingInput, Outcome, stream_failed, dispatcher_closed, Dispatcher,
  new_dispatcher, SubmitResult, submit, received, receive, resolve_all, fail_all_pending,
  stream_ends, close, request_of,
}

abbrev pub waits : ℕ → Dict String PendingInput → ℕ
waits f = tally (λ p. eqb p.future f)

unfoldable pub times : ℕ → List (ℕ × Outcome) → ℕ
times f [] = 0
times f ((g, o) ∷ log) = bit (eqb g f) + times f log

-- Each future that was issued waits in the map or has been resolved, once in all, and none waits
-- after the dispatcher was closed.
pub record Once (d : Dispatcher) : Type 0 where
  pub distinct : Distinct (keys d.pending)
  pub accounts : (f : ℕ) → waits f d.pending + times f d.resolved ≡ bit (ltb f d.issued)
  pub quiet : d.closed ≡ true → d.pending ≡ []

pub data Move : Type 0 where
  submits : Packet → String → Bool → Move
  receives : Response → (ℕ → String) → Move
  ends closes : Move

unfoldable pub step : Dispatcher → Move → Dispatcher
step d (submits pkt input_id sends) = (submit d pkt input_id sends).0
step d (receives resp ids) = receive d resp ids
step d ends = stream_ends d
step d closes = close d

-- A generated id is new, and the loop reads only while the stream is up.
abbrev pub Admissible : Dispatcher → Move → Type 0
Admissible d (submits pkt input_id sends) = lookup input_id d.pending ≡ none
Admissible d (receives resp ids) = d.listening ≡ true
Admissible d ends = d.listening ≡ true
Admissible d closes = Unit

pub data Reach (session_id : String) (server_port : ℕ) (schemas : List String)
    : Dispatcher → Type 0 where
  fresh : Reach session_id server_port schemas (new_dispatcher session_id server_port schemas)
  moved :
      {d : Dispatcher}
      → Reach session_id server_port schemas d
      → (m : Move) → Admissible d m
      → Reach session_id server_port schemas (step d m)

times-resolve_all :
    (f : ℕ) (o : Outcome) (m : Dict String PendingInput) (log : List (ℕ × Outcome))
    → times f (resolve_all o m log) ≡ waits f m + times f log
unfolding times resolve_all tally
times-resolve_all f o [] log = omega arith
times-resolve_all f o ((_, p) ∷ m) log = omega (arith, times-resolve_all f o m log)

abbrev entrant : Dispatcher → Packet → String → PendingInput
entrant d pkt input_id = record {
  req = request_of d pkt input_id;
  conn_id = pkt.conn_id;
  source = pkt.source;
  results = [];
  future = d.issued;
}

submit-Once :
    (d : Dispatcher) (pkt : Packet) (input_id : String) (sends : Bool)
    → lookup input_id d.pending ≡ none
    → Once d
    → Once (submit d pkt input_id sends).0
unfolding submit
submit-Once d pkt input_id sends new v =
    if_elim (λ (w : Dispatcher × SubmitResult). Once w.0) d.closed _ _ (λ e. v)
      (λ open_still.
        if_elim (λ (w : Dispatcher × SubmitResult). Once w.0) (not sends) _ _ (λ e. v)
          (λ e. record {
            distinct = Distinct-insert input_id (entrant d pkt input_id) d.pending v.distinct;
            accounts = λ f. ground (
              arith,
              v.accounts f,
              tally-insert_new (λ p. eqb p.future f) input_id (entrant d pkt input_id) d.pending
                  new,
            );
            quiet = λ c. absurd (ground (arith, c, open_still));
          }))

abbrev longer : PendingInput → Response → PendingInput
longer p resp = record p { results = p.results ++ resp ∷ [] }

not_quiet :
    (d : Dispatcher) (k : String) (p : PendingInput) → lookup k d.pending ≡ some p → d.pending ≢ []
unfolding lookup
not_quiet d k p at empty = let c = sym (subst (λ m. lookup k m ≡ some p) empty at) in cc

received-Once :
    (d : Dispatcher) (resp : Response) (ids : ℕ → String) (found : Option PendingInput)
    → lookup resp.input_id d.pending ≡ found
    → Once d
    → Once (received d resp ids found)
unfolding received times
received-Once d resp ids none at v = v
received-Once d resp ids (some p) at v =
    if_elim Once resp.done _ _
      (λ e. record {
        distinct = Distinct-delete resp.input_id d.pending v.distinct;
        accounts = λ f. omega (
          arith,
          v.accounts f,
          tally-delete (λ x. eqb x.future f) resp.input_id p d.pending v.distinct at,
        );
        quiet = λ c. absurd (not_quiet d resp.input_id p at (v.quiet c));
      })
      (λ e. record {
        distinct = Distinct-insert resp.input_id (longer p resp) d.pending v.distinct;
        accounts = λ f. omega (
          arith,
          v.accounts f,
          tally-insert_old (λ x. eqb x.future f) resp.input_id p (longer p resp) d.pending at,
        );
        quiet = λ c. absurd (not_quiet d resp.input_id p at (v.quiet c));
      })

receive-Once :
    (d : Dispatcher) (resp : Response) (ids : ℕ → String) → Once d → Once (receive d resp ids)
unfolding receive
receive-Once d resp ids v =
    if_elim Once (resp.input_id == "") _ _ (λ e. v)
      (λ e. received-Once d resp ids (lookup resp.input_id d.pending) refl v)

ends-Once : (d : Dispatcher) → Once d → Once (stream_ends d)
unfolding stream_ends fail_all_pending tally
ends-Once d v = record {
  distinct = tt;
  accounts =
      λ f. omega (arith, times-resolve_all f stream_failed d.pending d.resolved, v.accounts f);
  quiet = λ c. refl;
}

close-Once : (d : Dispatcher) → Once d → Once (close d)
unfolding close tally
close-Once d v =
    if_elim Once d.closed _ _ (λ e. v)
      (λ e. record {
        distinct = tt;
        accounts = λ f.
            omega (arith, times-resolve_all f dispatcher_closed d.pending d.resolved, v.accounts f);
        quiet = λ c. refl;
      })

Reach-Once :
    {session_id : String} {server_port : ℕ} {schemas : List String} {d : Dispatcher}
    → Reach session_id server_port schemas d
    → Once d
unfolding step new_dispatcher times tally
Reach-Once fresh = record { distinct = tt; accounts = λ f. ground arith; quiet = λ c. refl }
Reach-Once (moved r (submits pkt input_id sends) new) =
    submit-Once _ pkt input_id sends new (Reach-Once r)
Reach-Once (moved r (receives resp ids) up) = receive-Once _ resp ids (Reach-Once r)
Reach-Once (moved r ends up) = ends-Once _ (Reach-Once r)
Reach-Once (moved r closes ok) = close-Once _ (Reach-Once r)

-- Over every interleaving of submissions, responses, the end of the stream and closing, a future
-- that was issued either waits for its response and has not been resolved, or has been resolved
-- exactly once; one that was never issued is neither.
pub futures_once :
    {session_id : String} {server_port : ℕ} {schemas : List String} {d : Dispatcher} (f : ℕ)
    → Reach session_id server_port schemas d
    → waits f d.pending + times f d.resolved ≡ bit (ltb f d.issued)
futures_once f r = (Reach-Once r).accounts f

-- Once the dispatcher is closed no caller waits for ever: each future issued has been resolved
-- exactly once.
pub closed_resolves :
    {session_id : String} {server_port : ℕ} {schemas : List String} {d : Dispatcher} (f : ℕ)
    → Reach session_id server_port schemas d
    → d.closed ≡ true
    → f < d.issued
    → times f d.resolved ≡ 1
unfolding tally
closed_resolves {d = d} f r closed issued =
    let v = Reach-Once r in
    let none_wait : waits f d.pending ≡ 0 = ap (waits f) (v.quiet closed) in
    ground (arith, none_wait, v.accounts f)

-- When the stream ends every future issued so far has been resolved exactly once.
pub stream_end_resolves :
    {session_id : String} {server_port : ℕ} {schemas : List String} {d : Dispatcher} (f : ℕ)
    → Reach session_id server_port schemas d
    → f < d.issued
    → times f (stream_ends d).resolved ≡ 1
unfolding tally stream_ends fail_all_pending
stream_end_resolves {d = d} f r issued =
    let v = ends-Once d (Reach-Once r) in ground (arith, v.accounts f)
