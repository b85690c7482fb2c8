-- ===== src/MiniRpc/Client/Counts.antt =====
-- What an event adds to the counters of `RpcClient` of code/MiniRPC/src/rpc_client.cpp, and what the
-- counters are to say of the calls.
use unix_notes.Prelude.{
  pick, ℕ, ◌+◌, ◌≤◌, ◌<◌, ◌≡◌, refl, ap, ◌&&◌, List, Option, none, some, arith, ltb, if◌then◌else◌,
  size_limit,
}
use unix_notes.MiniRpc.Protocol.{RpcRequest}
use unix_notes.MiniRpc.Client.{
  count_response, fill_request, PendingState, RpcCallOptions, PendingCall, Client, failed_state,
}
use unix_notes.MiniRpc.Client.Sections
use unix_notes.MiniRpc.Client.Sections.{
  new, next_id, count_call, record_client_response, admit, find, erase, emplace, with_state,
  take_out, all_failed, take_all, split_sent, take_sent, completed_retries, next_attempt,
  split_exhausted, take_exhausted, ready, mark_sent, claim, reset_delay, should_reconnect,
  note_error, begin_stop, plan_reconnect, reconnect_fires, set_reconnect_timer, set_state,
  count_reconnect, begin_connect, is_terminal, give_up,
}
use unix_notes.MiniRpc.Client.System.{
  Completion, System, LinkEvent, Event, completion, with_error, begin_step, count_step, refused,
  admit_picked, register_picked, finish_picked, leaving, link_step, claim_step, step,
}
use unix_notes.MiniRpc.Client.Weigh.{here, ends, held, begun}

-- The ids from 1 on are given out in order.
abbrev pub issued : (next id : ℕ) → ℕ
issued next id = if ltb 0 id && ltb id next then 1 else 0

abbrev pub one : ℕ → ℕ
one id = 1

module _ {C : Type 0} where
  -- The counters beside the calls: every call begun has an id of its own and a place, and every
  -- call completed has been counted as a success or a failure.
  pub record Ledger (s : System C) : Type 0 where
    pub next_lem : s.client.next_request_id ≡ s.client.counters.total_calls + s.uncounted + 1
    pub each : (id : ℕ) → held (here id) s ≡ issued s.client.next_request_id id
    pub all : held one s ≡ s.client.counters.total_calls + s.uncounted
    pub ended :
        s.client.counters.success_calls + s.client.counters.failed_calls ≡ ends one s.completed
    pub causes :
        s.client.counters.timeout_calls + s.client.counters.cancelled_calls
        ≤ s.client.counters.failed_calls

  -- What an event adds to the counters.
  pub record Counts (e : Event C) (s s' : System C) : Type 0 where
    pub issues : s'.client.next_request_id ≡ s.client.next_request_id + begun one e s
    pub begins :
        s'.client.counters.total_calls + s'.uncounted
        ≡ s.client.counters.total_calls + s.uncounted + begun one e s
    pub ids :
        (id : ℕ)
        → issued s'.client.next_request_id id
          ≡ begun (here id) e s + issued s.client.next_request_id id
    pub finishes :
        s'.client.counters.success_calls + s'.client.counters.failed_calls ≡ ends one s'.completed
    pub explains :
        s'.client.counters.timeout_calls + s'.client.counters.cancelled_calls
        ≤ s'.client.counters.failed_calls

  -- A section that gives out no id and counts no call.
  record Same (c c' : Client C) : Type 0 where
    same_next : c'.next_request_id ≡ c.next_request_id
    same_total : c'.counters.total_calls ≡ c.counters.total_calls
    same_success : c'.counters.success_calls ≡ c.counters.success_calls
    same_failed : c'.counters.failed_calls ≡ c.counters.failed_calls
    same_timeout : c'.counters.timeout_calls ≡ c.counters.timeout_calls
    same_cancelled : c'.counters.cancelled_calls ≡ c.counters.cancelled_calls

  quiet :
      (s s' : System C) (e : Event C)
      → Ledger s
      → ((w : ℕ → ℕ) → begun w e s ≡ 0)
      → Same s.client s'.client
      → s'.completed ≡ s.completed
      → s'.uncounted ≡ s.uncounted
      → Counts e s s'
  quiet s s' e h z k f u = record {
    issues = omega (arith, z one, k.same_next);
    begins = omega (arith, z one, k.same_total, u);
    ids = λ id. rw k.same_next (omega (arith, z (here id)));
    finishes = rw f (omega (arith, h.ended, k.same_success, k.same_failed));
    explains = omega (arith, h.causes, k.same_failed, k.same_timeout, k.same_cancelled);
  }

  Same-eq :
      (c c' : Client C)
      → c'.next_request_id ≡ c.next_request_id
      → c'.counters ≡ c.counters
      → Same c c'
  Same-eq c c' e f = record {
    same_next = e;
    same_total = ap (λ m. m.total_calls) f;
    same_success = ap (λ m. m.success_calls) f;
    same_failed = ap (λ m. m.failed_calls) f;
    same_timeout = ap (λ m. m.timeout_calls) f;
    same_cancelled = ap (λ m. m.cancelled_calls) f;
  }

  link-Same : (e : LinkEvent) (c : Client C) → Same c (link_step e c)
  unfolding link_step Sections.reset_delay Sections.begin_stop Sections.plan_reconnect
      Sections.reconnect_fires Sections.begin_connect Sections.give_up Sections.note_error
      Sections.set_reconnect_timer Sections.set_state Sections.count_reconnect
  link-Same (LinkEvent.count_reconnect state) c = record {
    same_next = ground arith;
    same_total = ground arith;
    same_success = ground arith;
    same_failed = ground arith;
    same_timeout = ground arith;
    same_cancelled = ground arith;
  }
  link-Same LinkEvent.reset_delay c = Same-eq _ _ refl refl
  link-Same LinkEvent.begin_stop c = Same-eq _ _ refl refl
  link-Same LinkEvent.plan_reconnect c = Same-eq _ _ (ground arith) (ground arith)
  link-Same LinkEvent.reconnect_fires c = Same-eq _ _ refl refl
  link-Same LinkEvent.begin_connect c = Same-eq _ _ (ground arith) (ground arith)
  link-Same LinkEvent.give_up c = Same-eq _ _ refl refl
  link-Same (LinkEvent.note_error error) c = Same-eq _ _ refl refl
  link-Same (LinkEvent.set_reconnect_timer timer_id) c = Same-eq _ _ refl refl
  link-Same (LinkEvent.set_state state) c = Same-eq _ _ refl refl

  -- What an event that only moves calls leaves as it is.
  abbrev Still : System C → System C → Type 0
  Still s s' =
      (s'.client.next_request_id ≡ s.client.next_request_id)
      × (s'.client.counters ≡ s.client.counters)
      × (s'.completed ≡ s.completed)
      × (s'.uncounted ≡ s.uncounted)

  moved :
      (s s' : System C) (e : Event C)
      → Ledger s
      → ((w : ℕ → ℕ) → begun w e s ≡ 0)
      → Still s s'
      → Counts e s s'
  moved s s' e h z (a, b, c, u) = quiet s s' e h z (Same-eq _ _ a b) c u

  admit-Still :
      (s : System C) (o : Option (PendingCall C × List (PendingCall C)))
      → Still s (admit_picked s o)
  unfolding admit_picked Sections.admit refused
  admit-Still s none = (refl, refl, refl, refl)
  admit-Still s (some (p, calling)) = (ground arith, ground arith, ground arith, ground arith)

  register-Still :
      (s : System C) (o : Option (PendingCall C × List (PendingCall C)))
      → Still s (register_picked s o)
  unfolding register_picked Sections.emplace
  register-Still s none = (refl, refl, refl, refl)
  register-Still s (some (p, admitted)) = (ground arith, ground arith, ground arith, ground arith)

  leaving-Still :
      (end : PendingCall C → Completion C) (id : ℕ) (state : PendingState) (s : System C)
      → Still s (leaving end s (Sections.take_out id state s.client))
  unfolding Sections.take_out
  leaving-Still end id state s = (ground arith, ground arith, ground arith, ground arith)

  claim-Still : (id address : ℕ) (s : System C) → Still s (claim_step id address s)
  unfolding claim_step Sections.claim
  claim-Still id address s = (ground arith, ground arith, ground arith, ground arith)

  begin-Counts :
      (now address timer_id : ℕ) (what : List ℕ) (request : RpcRequest) (options : RpcCallOptions)
      (callback : Option C) (s : System C)
      → Ledger s
      → s.client.counters.total_calls + s.uncounted + 2 < size_limit
      → let e = Event.begin now address timer_id what request options callback in
        Counts e s (begin_step now address timer_id what request options callback s)
  unfolding begin_step Sections.next_id Sections.count_call fill_request
  begin-Counts now address timer_id what request options callback s h room = record {
    issues = ground (arith, h.next_lem);
    begins = ground (arith, h.next_lem);
    ids = λ id. ground (arith, h.next_lem);
    finishes = ground (arith, h.ended);
    explains = ground (arith, h.causes);
  }

  count-Counts :
      (s : System C)
      → Ledger s
      → s.client.counters.total_calls + s.uncounted + 2 < size_limit
      → Counts Event.count s (count_step s)
  unfolding count_step Sections.count_call
  count-Counts s h room = record {
    issues = ground arith;
    begins = ground arith;
    ids = λ id. ground arith;
    finishes = ground (arith, h.ended);
    explains = ground (arith, h.causes);
  }

  finish-Counts :
      (place : ℕ) (s : System C) (o : Option (Completion C × List (Completion C)))
      → Ledger s
      → ends one s.completed + 1 < size_limit
      → Counts (Event.finish place) s (finish_picked s o)
  unfolding finish_picked Sections.record_client_response count_response
  finish-Counts place s none h room =
      moved s s (Event.finish place) h (λ w. refl) (refl, refl, refl, refl)
  finish-Counts place s (some (d, completing)) h room = record {
    issues = ground arith;
    begins = ground arith;
    ids = λ id. ground arith;
    finishes = ground (arith, h.ended);
    explains = ground (arith, h.causes, h.ended);
  }

  pub step-Counts :
      (e : Event C) (s : System C)
      → Ledger s
      → s.client.counters.total_calls + s.uncounted + 2 < size_limit
      → Counts e s (step e s)
  unfolding step Sections.take_all Sections.take_sent Sections.take_exhausted
  step-Counts (Event.begin now address timer_id what request options callback) s h room =
      begin-Counts now address timer_id what request options callback s h room
  step-Counts Event.count s h room = count-Counts s h room
  step-Counts (Event.admit place) s h room =
      moved s _ _ h (λ w. refl) (admit-Still s (pick place s.calling))
  step-Counts (Event.register place) s h room =
      moved s _ _ h (λ w. refl) (register-Still s (pick place s.admitted))
  step-Counts (Event.finish place) s h room =
      finish-Counts place s (pick place s.completing) h (omega (arith, h.all))
  step-Counts (Event.respond response) s h room =
      moved s _ (Event.respond response) h (λ w. refl)
        (leaving-Still (completion response) response.request_id PendingState.completed s)
  step-Counts (Event.fail id code message) s h room =
      moved s _ (Event.fail id code message) h (λ w. refl)
        (leaving-Still (with_error code message) id (failed_state code) s)
  step-Counts (Event.fail_all code message) s h room =
      moved s _ (Event.fail_all code message) h (λ w. refl) (refl, refl, refl, refl)
  step-Counts (Event.fail_sent code message) s h room =
      moved s _ (Event.fail_sent code message) h (λ w. refl) (refl, refl, refl, refl)
  step-Counts (Event.expire code message) s h room =
      moved s _ (Event.expire code message) h (λ w. refl) (refl, refl, refl, refl)
  step-Counts (Event.claim id address) s h room =
      moved s _ (Event.claim id address) h (λ w. refl) (claim-Still id address s)
  step-Counts (Event.link e) s h room =
      quiet s _ (Event.link e) h (λ w. refl) (link-Same e s.client) refl refl
