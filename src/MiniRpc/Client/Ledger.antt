-- ===== src/MiniRpc/Client/Ledger.antt =====
-- Every call of `RpcClient` of code/MiniRPC/src/rpc_client.cpp beside its completions and the client's
-- counters, over any interleaving.
use unix_notes.Prelude.{
  pick, Picked, pick-Picked, ℕ, ◌+◌, ◌≤◌, ◌<◌, ◌≡◌, refl, List, [], ◌∷◌, Option, none, some, arith,
  length, size_limit,
}
use unix_notes.MiniRpc.Client.{PendingCall}
use unix_notes.MiniRpc.Client.Sections
use unix_notes.MiniRpc.Client.System
use unix_notes.MiniRpc.Client.Sections.{
  new, next_id, count_call, record_client_response, admit, find, erase, emplace, with_state,
  take_out, all_failed, take_all, split_sent, take_sent, completed_retries, next_attempt,
  split_exhausted, take_exhausted, ready, mark_sent, claim, reset_delay, should_reconnect,
  note_error, begin_stop, plan_reconnect, reconnect_fires, set_reconnect_timer, set_state,
  count_reconnect, begin_connect, is_terminal, give_up,
}
use unix_notes.MiniRpc.Client.System.{
  Completion, System, LinkEvent, Event, start, completion, with_error, new_call, ends_early,
  begin_step, refused, admit_picked, register_picked, finish_picked, leaving, all_leaving,
  link_step, claim_step, step, run,
}
use unix_notes.MiniRpc.Client.Weigh.{here, calls, held, Fresh, begun, NoClash, step-held}
use unix_notes.MiniRpc.Client.Counts.{one, Ledger, step-Counts}

module _ {C : Type 0} where
  absent : (id : ℕ) (ps : List (PendingCall C)) → calls (here id) ps ≡ 0 → find id ps ≡ none
  unfolding find
  absent id [] h = refl
  absent id (p ∷ ps) h = ground (arith, absent id ps)

  pick-Fresh :
      (s : System C) (o : Option (PendingCall C × List (PendingCall C)))
      → ((id : ℕ) → Picked (λ p. here id p.request_id) s.admitted o)
      → ((id : ℕ) → held (here id) s ≤ 1)
      → Fresh one s o
  pick-Fresh s none h d = tt
  pick-Fresh s (some (p, admitted)) h d =
      absent p.request_id s.client.pending_calls (ground (arith, h p.request_id, d p.request_id))

  Ledger-unique : (s : System C) (id : ℕ) → Ledger s → held (here id) s ≤ 1
  Ledger-unique s id h = ground (arith, h.each id)

  Ledger-NoClash : (e : Event C) (s : System C) → Ledger s → NoClash one e s
  Ledger-NoClash (Event.register place) s h =
      pick-Fresh s (pick place s.admitted)
        (λ id. pick-Picked (λ p. here id p.request_id) place s.admitted)
        (λ id. Ledger-unique s id h)
  Ledger-NoClash (Event.begin now address timer_id what request options callback) s h = tt
  Ledger-NoClash Event.count s h = tt
  Ledger-NoClash (Event.admit place) s h = tt
  Ledger-NoClash (Event.finish place) s h = tt
  Ledger-NoClash (Event.respond response) s h = tt
  Ledger-NoClash (Event.fail id code message) s h = tt
  Ledger-NoClash (Event.fail_all code message) s h = tt
  Ledger-NoClash (Event.fail_sent code message) s h = tt
  Ledger-NoClash (Event.expire code message) s h = tt
  Ledger-NoClash (Event.claim id address) s h = tt
  Ledger-NoClash (Event.link e) s h = tt

  -- One more event keeps the ledger.
  pub step-Ledger :
      (e : Event C) (s : System C)
      → Ledger s
      → s.client.counters.total_calls + s.uncounted + 2 < size_limit
      → Ledger (step e s)
        × ((step e s).client.counters.total_calls + (step e s).uncounted
            ≤ s.client.counters.total_calls + s.uncounted + 1)
  step-Ledger e s h room =
      let k = step-Counts e s h room in
      let n = Ledger-NoClash e s h in
      (
        record {
          next_lem = omega (arith, k.issues, k.begins, h.next_lem);
          each = λ id. omega (arith, k.ids id, step-held (here id) e s n, h.each id);
          all = omega (arith, k.begins, step-held one e s n, h.all);
          ended = k.finishes;
          causes = k.explains;
        },
        omega (arith, k.begins, begun_one e s),
      )
    where
      begun_one : (e : Event C) (s : System C) → begun one e s ≤ 1
      begun_one (Event.begin now address timer_id what request options callback) s = ground arith
      begun_one Event.count s = ground arith
      begun_one (Event.admit place) s = ground arith
      begun_one (Event.register place) s = ground arith
      begun_one (Event.finish place) s = ground arith
      begun_one (Event.respond response) s = ground arith
      begun_one (Event.fail id code message) s = ground arith
      begun_one (Event.fail_all code message) s = ground arith
      begun_one (Event.fail_sent code message) s = ground arith
      begun_one (Event.expire code message) s = ground arith
      begun_one (Event.claim id address) s = ground arith
      begun_one (Event.link e) s = ground arith

  run-Ledger :
      (events : List (Event C)) (s : System C)
      → Ledger s
      → s.client.counters.total_calls + s.uncounted + length events + 2 < size_limit
      → Ledger (run events s)
  unfolding run
  run-Ledger [] s h room = h
  run-Ledger (e ∷ events) s h room =
      let (h', small) = step-Ledger e s h (omega arith) in
      run-Ledger events (step e s) h' (omega arith)

  pub start-Ledger : Ledger {C = C} System.start
  unfolding System.start Sections.new
  start-Ledger = record {
    next_lem = refl;
    each = λ id. ground arith;
    all = refl;
    ended = refl;
    causes = omega arith;
  }

  -- Over any interleaving, fewer than 2 ^ 64 - 2 events from a new client on, the ledger holds: the
  -- ids 1, 2, ... have been given out, each id given out has just one call, at one place, which is
  -- either still under way or completed, and no other id has any; the total of calls, with those that
  -- have an id and are not counted yet, is the number of calls there have been, the successes and
  -- failures together are the calls completed, and the timeouts and the cancelled are among the
  -- failures.
  pub client-Ledger :
      (events : List (Event C)) → length events + 2 < size_limit → Ledger (run events System.start)
  unfolding System.start Sections.new
  client-Ledger events room = run-Ledger events System.start start-Ledger (omega (arith, room))
