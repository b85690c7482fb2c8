-- ===== src/MiniRpc/Client/Reconnect.antt =====
-- The back-off of `RpcClient` of code/MiniRPC/src/rpc_client.cpp, its retries, and what is left of it
-- once it stops.
use unix_notes.Prelude.{
  pick, ℕ, zero, suc, ◌+◌, ◌*◌, ◌^◌, ◌≤◌, ◌≡◌, refl, sym, ap, ◌∙◌, inl, inr, Bool, true, false,
  List, [], ◌∷◌, Option, none, some, arith, leb, Bool-cases, min, leb→le,
}
use unix_notes.MiniRpc.Protocol.{RpcRequest}
use unix_notes.MiniRpc.Client.{
  PendingState, RpcCallOptions, PendingCall, Client, initial_reconnect_delay, max_reconnect_delay,
  failed_state,
}
use unix_notes.MiniRpc.Client.Sections
use unix_notes.MiniRpc.Client.System
use unix_notes.MiniRpc.Client.Sections.{
  new, next_id, count_call, record_client_response, admit, find, erase, emplace, with_state,
  take_out, all_failed, take_all, split_sent, take_sent, completed_retries, next_attempt,
  split_exhausted, take_exhausted, ready, mark_sent, claim, reset_delay, should_reconnect,
  note_error, begin_stop, plan_reconnect, reconnect_fires, set_reconnect_timer, set_state,
  count_reconnect, begin_connect, is_terminal, give_up,
}
use unix_notes.MiniRpc.Client.System.{
  Completion, System, LinkEvent, Event, start, completion, with_error, new_call, ends_early,
  begin_step, count_step, refused, admit_picked, register_picked, finish_picked, leaving,
  all_leaving, link_step, claim_step, step, run,
}

capped_twice : (e k : ℕ) → min 3000 (min 3000 e * suc k) ≡ min 3000 (e * suc k)
capped_twice e k = elim (Bool-cases (leb e 3000)) [
  | inl small ↦ rw (capped (leb→le e 3000 small)) refl
  | inr large ↦ grind arith
]
  where
    capped : e ≤ 3000 → min 3000 e ≡ e
    capped h = omega arith

positive_pow : (n : ℕ) → (k : ℕ) × (2 ^ n ≡ suc k)
positive_pow zero = (0, refl)
positive_pow (suc n) = let (k, e) = positive_pow n in (k + suc k, omega (arith, e))

pow_step : (n d : ℕ) → min 3000 (min 3000 (d * 2) * 2 ^ n) ≡ min 3000 (d * 2 ^ suc n)
pow_step n d =
    let (k, e) = positive_pow n in
    rw e
      (capped_twice (d * 2) k ∙ ap (λ m. min 3000 m) (twice k ∙ ap (λ m. d * m) (sym (next k e))))
  where
    twice : (k : ℕ) → d * 2 * suc k ≡ d * (suc k + suc k)
    twice k = grind arith

    next : (k : ℕ) → 2 ^ n ≡ suc k → 2 ^ suc n ≡ suc k + suc k
    next k e = omega (arith, e)

module _ {C : Type 0} where
  abbrev InBounds : Client C → Type 0
  InBounds c =
      (initial_reconnect_delay ≤ c.reconnect_delay) × (c.reconnect_delay ≤ max_reconnect_delay)

  link-InBounds : (e : LinkEvent) (c : Client C) → InBounds c → InBounds (link_step e c)
  unfolding link_step Sections.reset_delay Sections.begin_stop Sections.plan_reconnect
      Sections.reconnect_fires Sections.begin_connect Sections.give_up Sections.note_error
      Sections.set_reconnect_timer Sections.set_state Sections.count_reconnect
  link-InBounds LinkEvent.reset_delay c h = (omega arith, omega arith)
  link-InBounds LinkEvent.begin_stop c h = h
  link-InBounds LinkEvent.plan_reconnect c h = (ground arith, ground arith)
  link-InBounds LinkEvent.reconnect_fires c h = h
  link-InBounds LinkEvent.begin_connect c h = (ground arith, ground arith)
  link-InBounds LinkEvent.give_up c h = h
  link-InBounds (LinkEvent.note_error error) c h = h
  link-InBounds (LinkEvent.set_reconnect_timer timer_id) c h = h
  link-InBounds (LinkEvent.set_state state) c h = h
  link-InBounds (LinkEvent.count_reconnect state) c h = (ground arith, ground arith)

  -- The other events keep the delay, and the flag that the client stops.
  abbrev Kept : Client C → Client C → Type 0
  Kept c c' = (c'.reconnect_delay ≡ c.reconnect_delay) × (c'.stopping ≡ c.stopping)

  begin-Kept :
      (now address timer_id : ℕ) (what : List ℕ) (request : RpcRequest) (options : RpcCallOptions)
      (callback : Option C) (s : System C)
      → Kept s.client (begin_step now address timer_id what request options callback s).client
  unfolding begin_step Sections.next_id Sections.count_call
  begin-Kept now address timer_id what request options callback s = (ground arith, ground arith)

  count-Kept : (s : System C) → Kept s.client (count_step s).client
  unfolding count_step Sections.count_call
  count-Kept s = (ground arith, ground arith)

  admit-Kept :
      (s : System C) (o : Option (PendingCall C × List (PendingCall C)))
      → Kept s.client (admit_picked s o).client
  unfolding admit_picked Sections.admit
  admit-Kept s none = (refl, refl)
  admit-Kept s (some (p, calling)) = (ground arith, ground arith)

  register-Kept :
      (s : System C) (o : Option (PendingCall C × List (PendingCall C)))
      → Kept s.client (register_picked s o).client
  unfolding register_picked Sections.emplace
  register-Kept s none = (refl, refl)
  register-Kept s (some (p, admitted)) = (ground arith, ground arith)

  finish-Kept :
      (s : System C) (o : Option (Completion C × List (Completion C)))
      → Kept s.client (finish_picked s o).client
  unfolding finish_picked Sections.record_client_response
  finish-Kept s none = (refl, refl)
  finish-Kept s (some (d, completing)) = (refl, refl)

  leaving-Kept :
      (end : PendingCall C → Completion C) (id : ℕ) (state : PendingState) (s : System C)
      → Kept s.client (leaving end s (Sections.take_out id state s.client)).client
  unfolding Sections.take_out
  leaving-Kept end id state s = (ground arith, ground arith)

  claim-Kept : (id address : ℕ) (s : System C) → Kept s.client (claim_step id address s).client
  unfolding claim_step Sections.claim
  claim-Kept id address s = (ground arith, ground arith)

  abbrev is_link : Event C → Bool
  is_link (Event.link e) = true
  is_link _ = false

  step-Kept : (e : Event C) (s : System C) → is_link e ≡ false → Kept s.client (step e s).client
  unfolding step Sections.take_all Sections.take_sent Sections.take_exhausted
  step-Kept (Event.begin now address timer_id what request options callback) s h =
      begin-Kept now address timer_id what request options callback s
  step-Kept Event.count s h = count-Kept s
  step-Kept (Event.admit place) s h = admit-Kept s (pick place s.calling)
  step-Kept (Event.register place) s h = register-Kept s (pick place s.admitted)
  step-Kept (Event.finish place) s h = finish-Kept s (pick place s.completing)
  step-Kept (Event.respond response) s h =
      leaving-Kept (completion response) response.request_id PendingState.completed s
  step-Kept (Event.fail id code message) s h =
      leaving-Kept (with_error code message) id (failed_state code) s
  step-Kept (Event.fail_all code message) s h = (refl, refl)
  step-Kept (Event.fail_sent code message) s h = (refl, refl)
  step-Kept (Event.expire code message) s h = (refl, refl)
  step-Kept (Event.claim id address) s h = claim-Kept id address s
  step-Kept (Event.link e) s h = absurd (cc)

  step-InBounds : (e : Event C) (s : System C) → InBounds s.client → InBounds (step e s).client
  unfolding step
  step-InBounds (Event.link e) s h = link-InBounds e s.client h
  step-InBounds e s h = ground (arith, step-Kept e s refl)

  run-InBounds :
      (events : List (Event C)) (s : System C) → InBounds s.client → InBounds (run events s).client
  unfolding run
  run-InBounds [] s h = h
  run-InBounds (e ∷ events) s h = run-InBounds events (step e s) (step-InBounds e s h)

  -- Over any interleaving from a new client on, the delay before the next attempt to connect again
  -- is at least 100 and at most 3000 milliseconds.
  pub reconnect_delay_bounds :
      (events : List (Event C))
      → let c = (run events System.start).client in
        (initial_reconnect_delay ≤ c.reconnect_delay) × (c.reconnect_delay ≤ max_reconnect_delay)
  unfolding System.start Sections.new
  reconnect_delay_bounds events = run-InBounds events System.start (omega arith, omega arith)

  -- The timer is armed and fires, `n` times.
  abbrev pub rounds : ℕ → Client C → Client C
  rounds zero c = c
  rounds (suc n) c = rounds n (Sections.reconnect_fires (Sections.plan_reconnect c).0).0

  -- The client wants a connection, and no timer is armed.
  abbrev pub Idle : Client C → Type 0
  Idle c = (should_reconnect c ≡ true) × (c.reconnect_timer_id ≡ 0)

  round-Idle :
      (c : Client C)
      → Idle c
      → let c' = (Sections.reconnect_fires (Sections.plan_reconnect c).0).0 in
        Idle c' × (c'.reconnect_delay ≡ min max_reconnect_delay (c.reconnect_delay * 2))
  unfolding Sections.reconnect_fires Sections.plan_reconnect
  round-Idle c (a, b) = ((ground arith, ground arith), ground arith)

  rounds_lem :
      (n : ℕ) (c : Client C)
      → Idle c
      → c.reconnect_delay ≤ max_reconnect_delay
      → Idle (rounds n c)
        × ((rounds n c).reconnect_delay ≡ min max_reconnect_delay (c.reconnect_delay * 2 ^ n))
  rounds_lem zero c h small = (h, omega arith)
  rounds_lem (suc n) c h small =
      let (h', e) = round-Idle c h in
      let (i, f) = rounds_lem n _ h' (omega (arith, e)) in
      (i, f ∙ ap (λ d. min max_reconnect_delay (d * 2 ^ n)) e ∙ pow_step n c.reconnect_delay)

  -- The delay doubles up to its bound: of a client that wants a connection and has just lost one
  -- the timer that is armed after `n` attempts waits for 100 * 2 ^ n milliseconds, 3000 at most.
  pub back_off :
      (n : ℕ) (c : Client C)
      → Idle c
      → c.reconnect_delay ≡ initial_reconnect_delay
      → (Sections.plan_reconnect (rounds n c)).1
        ≡ some (min max_reconnect_delay (initial_reconnect_delay * 2 ^ n))
  unfolding Sections.plan_reconnect
  back_off n c h e = let ((a, b), f) = rounds_lem n c h (omega (arith, e)) in ground (arith, f, e)
