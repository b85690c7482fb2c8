-- ===== src/MiniRpc/Client/Stopped.antt =====
-- `RpcClient` of code/MiniRPC/src/rpc_client.cpp once it stops, and its calls whose connection fails
-- again and again.
use unix_notes.Prelude.{
  pick, ℕ, zero, suc, ◌+◌, ◌≤◌, ◌<◌, ◌≡◌, refl, sym, ap, ◌∙◌, inl, inr, true, false, List, [], ◌∷◌,
  Option, none, some, arith, leb, if◌then◌else◌, Bool-cases, leb→le, le→leb,
}
use unix_notes.MiniRpc.Protocol.{RpcRequest}
use unix_notes.MiniRpc.Client.{
  PendingState, RpcCallOptions, PendingCall, Client, failed_state, waiting_to_send,
}
use unix_notes.MiniRpc.Client.Sections
use unix_notes.MiniRpc.Client.Sections.{
  new, next_id, count_call, record_client_response, admit, find, erase, emplace, with_state,
  take_out, all_failed, take_all, split_sent, take_sent, completed_retries, next_attempt,
  split_exhausted, take_exhausted, ready, mark_sent, claim, reset_delay, should_reconnect,
  note_error, begin_stop, plan_reconnect, reconnect_fires, set_reconnect_timer, set_state,
  count_reconnect, begin_connect, is_terminal, give_up,
}
use unix_notes.MiniRpc.Client.System.{
  Completion, System, LinkEvent, Event, completion, with_error, begin_step, count_step,
  admit_picked, register_picked, finish_picked, leaving, link_step, claim_step, step, run,
}

module _ {C : Type 0} where
  -- The client stops, no call waits in the map, and none is on its way to it.
  abbrev pub Stopped : System C → Type 0
  Stopped s = (s.client.stopping ≡ true) × (s.admitted ≡ []) × (s.client.pending_calls ≡ [])

  abbrev Stays : System C → System C → Type 0
  Stays s s' = Stopped s' × (s'.written ≡ s.written)

  link-Stopped :
      (e : LinkEvent) (c : Client C)
      → c.stopping ≡ true
      → c.pending_calls ≡ []
      → ((link_step e c).stopping ≡ true) × ((link_step e c).pending_calls ≡ [])
  unfolding link_step Sections.reset_delay Sections.begin_stop Sections.plan_reconnect
      Sections.reconnect_fires Sections.begin_connect Sections.give_up Sections.note_error
      Sections.set_reconnect_timer Sections.set_state Sections.count_reconnect
  link-Stopped LinkEvent.reset_delay c h k = (h, k)
  link-Stopped LinkEvent.begin_stop c h k = (refl, k)
  link-Stopped LinkEvent.plan_reconnect c h k = (ground arith, ground arith)
  link-Stopped LinkEvent.reconnect_fires c h k = (h, k)
  link-Stopped LinkEvent.begin_connect c h k = (ground arith, ground arith)
  link-Stopped LinkEvent.give_up c h k = (h, k)
  link-Stopped (LinkEvent.note_error error) c h k = (h, k)
  link-Stopped (LinkEvent.set_reconnect_timer timer_id) c h k = (h, k)
  link-Stopped (LinkEvent.set_state state) c h k = (h, k)
  link-Stopped (LinkEvent.count_reconnect state) c h k = (ground arith, ground arith)

  begin-Stays :
      (now address timer_id : ℕ) (what : List ℕ) (request : RpcRequest) (options : RpcCallOptions)
      (callback : Option C) (s : System C)
      → Stopped s
      → Stays s (begin_step now address timer_id what request options callback s)
  unfolding begin_step Sections.next_id Sections.count_call
  begin-Stays now address timer_id what request options callback s (a, b, c) =
      ((ground arith, ground arith, ground arith), ground arith)

  count-Stays : (s : System C) → Stopped s → Stays s (count_step s)
  unfolding count_step Sections.count_call
  count-Stays s (a, b, c) = ((ground arith, ground arith, ground arith), ground arith)

  admit-Stays :
      (s : System C) (o : Option (PendingCall C × List (PendingCall C)))
      → Stopped s
      → Stays s (admit_picked s o)
  unfolding admit_picked Sections.admit
  admit-Stays s none h = (h, refl)
  admit-Stays s (some (p, calling)) (a, b, c) =
      ((ground arith, ground arith, ground arith), ground arith)

  finish-Stays :
      (s : System C) (o : Option (Completion C × List (Completion C)))
      → Stopped s
      → Stays s (finish_picked s o)
  unfolding finish_picked Sections.record_client_response
  finish-Stays s none h = (h, refl)
  finish-Stays s (some (d, completing)) h = (h, refl)

  leaving-Stays :
      (end : PendingCall C → Completion C) (id : ℕ) (state : PendingState) (s : System C)
      → Stopped s
      → Stays s (leaving end s (Sections.take_out id state s.client))
  unfolding Sections.take_out Sections.find
  leaving-Stays end id state s (a, b, c) = rw c ((a, b, refl), refl)

  claim-Stays : (id address : ℕ) (s : System C) → Stopped s → Stays s (claim_step id address s)
  unfolding claim_step Sections.claim Sections.find
  claim-Stays id address s (a, b, c) = rw c ((a, b, refl), refl)

  step-Stays : (e : Event C) (s : System C) → Stopped s → Stays s (step e s)
  unfolding step Sections.take_all Sections.take_sent Sections.take_exhausted Sections.split_sent
      Sections.split_exhausted register_picked
  step-Stays (Event.begin now address timer_id what request options callback) s h =
      begin-Stays now address timer_id what request options callback s h
  step-Stays Event.count s h = count-Stays s h
  step-Stays (Event.admit place) s h = admit-Stays s (pick place s.calling) h
  step-Stays (Event.register place) s (a, b, c) = rw b ((a, refl, c), refl)
  step-Stays (Event.finish place) s h = finish-Stays s (pick place s.completing) h
  step-Stays (Event.respond response) s h =
      leaving-Stays (completion response) response.request_id PendingState.completed s h
  step-Stays (Event.fail id code message) s h =
      leaving-Stays (with_error code message) id (failed_state code) s h
  step-Stays (Event.fail_all code message) s (a, b, c) = ((a, b, refl), refl)
  step-Stays (Event.fail_sent code message) s (a, b, c) =
      ((a, b, ap (λ ps. (split_sent ps).0) c), refl)
  step-Stays (Event.expire code message) s (a, b, c) =
      ((a, b, ap (λ ps. (split_exhausted ps).0) c), refl)
  step-Stays (Event.claim id address) s h = claim-Stays id address s h
  step-Stays (Event.link e) s (a, b, c) =
      let (d, f) = link-Stopped e s.client a c in ((d, b, f), refl)

  -- Once the client stops with no call in the map and none on its way to it, which is how the
  -- destructor leaves it where no caller is between the two sections of a call, this stays so: no
  -- call enters the map again and no frame is written, whatever happens.
  pub run-Stopped :
      (events : List (Event C)) (s : System C)
      → Stopped s
      → Stopped (run events s) × ((run events s).written ≡ s.written)
  unfolding run
  run-Stopped [] s h = (h, refl)
  run-Stopped (e ∷ events) s h =
      let (h', same) = step-Stays e s h in
      let (h'', more) = run-Stopped events (step e s) h' in (h'', more ∙ same)

  -- The calls that stay after `n` attempts to connect have failed.
  abbrev pub errors : ℕ → List (PendingCall C) → List (PendingCall C)
  errors zero ps = ps
  errors (suc n) ps = errors n (split_exhausted ps).0

  abbrev pub with_attempt : ℕ → PendingCall C → PendingCall C
  with_attempt attempt p = record p { request = record p.request { attempt = attempt } }

  errors-nil : (n : ℕ) → errors n [] ≡ []
  unfolding split_exhausted
  errors-nil zero = refl
  errors-nil (suc n) = errors-nil n

  -- What is left of one call, if `tried` attempts after the first are no more than it may make.
  abbrev left : ℕ → PendingCall C → List (PendingCall C)
  left tried p = if leb tried p.options.max_retries then with_attempt (suc tried) p ∷ [] else []

  left_more :
      (tried : ℕ) (p : PendingCall C)
      → leb tried p.options.max_retries ≡ true
      → left tried p ≡ with_attempt (suc tried) p ∷ []
  left_more tried p h = rw h refl

  left_none :
      (tried : ℕ) (p : PendingCall C) → leb tried p.options.max_retries ≡ false → left tried p ≡ []
  left_none tried p h = rw h refl

  one_error :
      (k : ℕ) (p : PendingCall C)
      → p.state ≡ waiting_to_send
      → p.options.retry_enabled ≡ true
      → k ≤ p.options.max_retries
      → p.options.max_retries < 0xffff_ffff
      → (split_exhausted (with_attempt (suc k) p ∷ [])).0 ≡ left (k + 1) p
  unfolding split_exhausted
  one_error k p a b h small = ground (arith, a, b)

  errors_from :
      (n k : ℕ) (p : PendingCall C)
      → p.state ≡ waiting_to_send
      → p.options.retry_enabled ≡ true
      → k ≤ p.options.max_retries
      → p.options.max_retries < 0xffff_ffff
      → errors n (with_attempt (suc k) p ∷ []) ≡ left (k + n) p
  errors_from zero k p a b h small =
      sym (left_more k p (le→leb _ _ h)) ∙ ap (λ m. left m p) (omega arith)
  errors_from (suc n) k p a b h small = elim (Bool-cases (leb (k + 1) p.options.max_retries)) [
    | inl more ↦
        ap (errors n) (one_error k p a b h small ∙ left_more (k + 1) p more)
        ∙ errors_from n (k + 1) p a b (leb→le _ _ more) small
        ∙ ap (λ m. left m p) (omega arith)
    | inr over ↦
        ap (errors n) (one_error k p a b h small ∙ left_none (k + 1) p over)
        ∙ errors-nil n
        ∙ sym (left_none (k + suc n) p (ground (arith, over)))
  ]

  -- A call that waits, may be tried again, and has been tried once outlives as many failed attempts
  -- to connect as its options allow retries, counts them, and is given up at the next one; if they
  -- allow fewer than 2 ^ 32 - 1.
  pub retry_limit :
      (n : ℕ) (p : PendingCall C)
      → p.state ≡ waiting_to_send
      → p.options.retry_enabled ≡ true
      → p.request.attempt ≡ 1
      → p.options.max_retries < 0xffff_ffff
      → errors n (p ∷ [])
        ≡ (if leb n p.options.max_retries then with_attempt (n + 1) p ∷ [] else [])
  retry_limit n p a b c small =
      ap (λ m. errors n (with_attempt m p ∷ [])) c
      ∙ errors_from n 0 p a b (omega arith) small
      ∙ ground arith
