-- ===== src/MiniReactor/Connector/Sockets.antt =====
-- Where the sockets of code/MiniReactor/src/net/Connector.cpp are.
use unix_notes.Prelude.{
  sum, subst, ℕ, ◌+◌, ◌≡◌, refl, sym, ap, ◌∙◌, ◌⊎◌, inl, inr, Bool, true, false, not, ◌&&◌, ◌||◌,
  List, [], ◌∷◌, Option, none, some, arith, ◌==◌, if◌then◌else◌, Bool-cases,
}
use unix_notes.MiniReactor.Connector.{
  State, disconnected, connecting, connected, Answer, at_once, in_progress, refused, Connector,
  is_disconnected, is_connecting, is_connected, new, close_socket, report_error, econnaborted,
  hand_over, answered, stored, told, start_in_loop, stop_with, stop_in_loop, write_with,
  handle_write, error_with, handle_error, Event, starts, stops, start_runs, stop_runs, writable,
  failing, step, run,
}

-- Every socket is closed, given away or watched by the channel, as often as it has been created; the
-- channel is there just while the state is connecting.
abbrev pub watched : (ℕ → ℕ) → Option ℕ → ℕ
watched w none = 0
watched w (some fd) = w fd

abbrev pub is_watched : Option ℕ → Bool
is_watched none = false
is_watched (some fd) = true

pub record Tidy (c : Connector) : Type 0 where
  pub sockets :
      (w : ℕ → ℕ) → sum w c.created ≡ sum w c.closed + sum w c.handed + watched w c.channel
  pub watches : is_connecting c.state ≡ is_watched c.channel

unwatched : (w : ℕ → ℕ) (o : Option ℕ) → is_watched o ≡ false → watched w o ≡ 0
unwatched w none e = refl
unwatched w (some fd) e = absurd (cc)

not_connecting : (s : State) → is_disconnected s ≡ true → is_connecting s ≡ false
not_connecting disconnected e = refl
not_connecting connecting e = cc
not_connecting connected e = refl

-- A connector whose channel is gone, with a socket in hand.
record InHand (fd : ℕ) (c : Connector) : Type 0 where
  sockets : (w : ℕ → ℕ) → sum w c.created ≡ sum w c.closed + sum w c.handed + w fd
  gone : is_watched c.channel ≡ false
  idle : is_connecting c.state ≡ false

report_error-Tidy : (fd error : ℕ) (c : Connector) → InHand fd c → Tidy (report_error fd error c)
unfolding report_error
report_error-Tidy fd error c h = record {
  sockets = λ w. ground (arith, h.sockets w, unwatched w c.channel h.gone);
  watches = ground (arith, h.gone, h.idle);
}

close_socket-Tidy : (fd : ℕ) (c : Connector) → InHand fd c → Tidy (close_socket fd c)
close_socket-Tidy fd c h = record {
  sockets = λ w. omega (arith, h.sockets w, unwatched w c.channel h.gone);
  watches = h.idle ∙ sym h.gone;
}

hand_over-Tidy :
    (taken : Bool) (fd : ℕ) (c : Connector)
    → ((w : ℕ → ℕ) → sum w c.created ≡ sum w c.closed + sum w c.handed + w fd)
    → is_watched c.channel ≡ false
    → Tidy (hand_over taken fd c)
unfolding hand_over
hand_over-Tidy true fd c sockets gone = record {
  sockets = λ w. omega (arith, sockets w, unwatched w c.channel gone);
  watches = sym gone;
}
hand_over-Tidy false fd c sockets gone = record {
  sockets = λ w. omega (arith, sockets w, unwatched w c.channel gone);
  watches = sym gone;
}

answered-Tidy :
    (fd : ℕ) (answer : Answer) (c : Connector) → InHand fd c → Tidy (answered fd answer c)
unfolding answered
answered-Tidy fd at_once c h =
    hand_over-Tidy (c.connect_requested && c.takes_connections) fd c h.sockets h.gone
answered-Tidy fd in_progress c h = record { sockets = h.sockets; watches = refl }
answered-Tidy fd (refused error) c h = report_error-Tidy fd error c h

stored-Tidy : (between : Option Bool) (c : Connector) → Tidy c → Tidy (stored between c)
stored-Tidy none c h = h
stored-Tidy (some wanted) c h = record { sockets = h.sockets; watches = h.watches }

told-Tidy :
    (takes_errors : Bool) (error : ℕ) (c : Connector) → Tidy c → Tidy (told takes_errors error c)
told-Tidy true error c h = record { sockets = h.sockets; watches = h.watches }
told-Tidy false error c h = h

-- A new socket, when there is no channel.
created-InHand :
    (fd : ℕ) (c : Connector)
    → Tidy c
    → is_connecting c.state ≡ false
    → InHand fd (record c { created = fd ∷ c.created })
created-InHand fd c h idle =
    let gone = sym h.watches ∙ idle in
    record {
      sockets = λ w. omega (arith, h.sockets w, unwatched w c.channel gone);
      gone = gone;
      idle = idle;
    }

stored_state : (between : Option Bool) (c : Connector) → (stored between c).state ≡ c.state
stored_state none c = refl
stored_state (some wanted) c = refl

stored_created : (between : Option Bool) (c : Connector) → (stored between c).created ≡ c.created
stored_created none c = refl
stored_created (some wanted) c = refl

start_in_loop-Tidy :
    (between : Option Bool) (socket : ℕ ⊎ (ℕ × Answer)) (c : Connector)
    → Tidy c
    → Tidy (start_in_loop between socket c)
unfolding start_in_loop
start_in_loop-Tidy between (inl error) c h =
    let k = stored-Tidy between c h in
    elim (Bool-cases (not c.connect_requested || not (is_disconnected c.state))) [
      | inl e ↦ rw e k
      | inr e ↦ rw e (told-Tidy c.takes_errors error (stored between c) k)
    ]
start_in_loop-Tidy between (inr (fd, answer)) c h =
    let k = stored-Tidy between c h in
    elim (Bool-cases (not c.connect_requested || not (is_disconnected c.state))) [
      | inl e ↦ rw e k
      | inr e ↦
          let idle = not_connecting c.state (ground (arith, e)) in
          rw e (
            answered-Tidy fd answer (record (stored between c) { created = fd ∷ c.created })
              (subst (λ l. InHand fd (record (stored between c) { created = fd ∷ l }))
                (stored_created between c)
                (created-InHand fd (stored between c) k
                  (ap is_connecting (stored_state between c) ∙ idle))))
    ]

-- With the channel's socket in hand.
released :
    (fd : ℕ) (c : Connector)
    → c.channel ≡ some fd
    → Tidy c
    → InHand fd (record c { channel = none; state = disconnected })
released fd c e h = record {
  sockets = λ w. omega (arith, h.sockets w, ap (watched w) e);
  gone = refl;
  idle = refl;
}

stop_with-Tidy : (o : Option ℕ) (c : Connector) → c.channel ≡ o → Tidy c → Tidy (stop_with o c)
unfolding stop_with
stop_with-Tidy none c e h = h
stop_with-Tidy (some fd) c e h =
    close_socket-Tidy fd (record c { channel = none; state = disconnected }) (released fd c e h)

write_with-Tidy :
    (error : ℕ) (o : Option ℕ) (c : Connector)
    → c.channel ≡ o
    → Tidy c
    → Tidy (write_with error o c)
unfolding write_with
write_with-Tidy error none c e h = h
write_with-Tidy error (some fd) c e h =
    let free = record c { channel = none; state = disconnected } in
    elim (Bool-cases (not (error == 0))) [
      | inl bad ↦ rw bad (report_error-Tidy fd error free (released fd c e h))
      | inr good ↦ rw good (elim (Bool-cases (not c.connect_requested)) [
        | inl late ↦ rw late (close_socket-Tidy fd free (released fd c e h))
        | inr wanted ↦ rw wanted (
            hand_over-Tidy c.takes_connections fd (record c { channel = none })
              (released fd c e h).sockets refl)
      ])
    ]

error_with-Tidy :
    (error : ℕ) (o : Option ℕ) (c : Connector)
    → c.channel ≡ o
    → Tidy c
    → Tidy (error_with error o c)
unfolding error_with
error_with-Tidy error none c e h = h
error_with-Tidy error (some fd) c e h =
    report_error-Tidy fd (if error == 0 then econnaborted else error)
      (record c { channel = none; state = disconnected }) (released fd c e h)

step-Tidy : (e : Event) (c : Connector) → Tidy c → Tidy (step e c)
unfolding step stop_in_loop handle_write handle_error
step-Tidy starts c h = record { sockets = h.sockets; watches = h.watches }
step-Tidy stops c h = record { sockets = h.sockets; watches = h.watches }
step-Tidy (start_runs between socket) c h = start_in_loop-Tidy between socket c h
step-Tidy stop_runs c h = elim (Bool-cases (is_connecting c.state)) [
  | inl e ↦ rw e (stop_with-Tidy c.channel c refl h)
  | inr e ↦ rw e (elim (Bool-cases (is_connected c.state)) [
    | inl f ↦ rw f (record { sockets = h.sockets; watches = sym e ∙ h.watches })
    | inr f ↦ rw f h
  ])
]
step-Tidy (writable error) c h = elim (Bool-cases (is_connecting c.state)) [
  | inl e ↦ rw e (write_with-Tidy error c.channel c refl h)
  | inr e ↦ rw e h
]
step-Tidy (failing error) c h = elim (Bool-cases (is_connecting c.state)) [
  | inl e ↦ rw e (error_with-Tidy error c.channel c refl h)
  | inr e ↦ rw e h
]

run_keeps : (events : List Event) (c : Connector) → Tidy c → Tidy (run events c)
unfolding run
run_keeps [] c h = h
run_keeps (e ∷ events) c h = run_keeps events (step e c) (step-Tidy e c h)

-- Over any order of calls and events from a new connector on, whatever the kernel answers, every socket
-- has been closed or given to the callback or is watched by the channel, as often as it was created,
-- and there is a channel just while the connector is connecting.
pub run-Tidy :
    (events : List Event) (takes_connections takes_errors : Bool)
    → Tidy (run events (new takes_connections takes_errors))
unfolding new
run-Tidy events takes_connections takes_errors =
    run_keeps events (new takes_connections takes_errors)
      (record { sockets = λ w. refl; watches = refl })
