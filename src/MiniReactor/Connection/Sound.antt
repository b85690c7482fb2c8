-- ===== src/MiniReactor/Connection/Sound.antt =====
-- Where the bytes of a connection of code/MiniReactor/src/net/TcpConnection.cpp are.
use unix_notes.Prelude.{
  take-append-drop, ap₂, ℕ, suc, ◌+◌, ◌≤◌, ◌<◌, ◌≡◌, refl, sym, ap, ◌∙◌, ◌⊎◌, inl, inr, Bool, true,
  false, not, ◌&&◌, ◌||◌, List, [], ◌∷◌, ◌++◌, arith, length, length-append, ◌==◌, Bool-cases,
  Returns, Returns-bind, take, drop, append-nil, append_assoc,
}
use unix_notes.MiniReactor.Buffer.{readable_bytes, max_size}
use unix_notes.MiniReactor.Buffer.Refine.{Holds, readable_bytes_lem}
use unix_notes.MiniReactor.Buffer.Text.{append-Holds}
use unix_notes.MiniReactor.Connection.{
  State, connecting, connected, disconnecting, disconnected, SendResult, wrote, interrupted,
  would_block, broken, Connection, is_connected, is_disconnecting, is_disconnected, handle_close,
  send_all, queue_rest, after_send, send_in_loop,
}

-- An open connection writes just if something is unsent.
abbrev pub Asks : Connection → List ℕ → Type 0
Asks c unsent =
    ((c.writing ≡ false) × (length unsent ≡ 0)) ⊎ ((c.writing ≡ true) × (0 < length unsent))

abbrev pub Interest : Connection → List ℕ → Type 0
Interest c unsent =
    ((is_disconnected c.state ≡ true) × (c.writing ≡ false))
    ⊎ ((is_disconnected c.state ≡ false) × Asks c unsent)

-- The bytes taken on are those on the wire, then those in the output buffer, then those given up; only a
-- connection that is closed has given any up. While it is not closed, it asks to be told when the
-- socket can be written just if the buffer is not empty. It has shut its write side down only if every
-- byte is on the wire and no more can come, and has told of its close at most once, and only when closed.
pub record Sound (c : Connection) : Type 0 where
  pub unsent : List ℕ
  pub unread : List ℕ
  pub held : Holds c.output unsent
  pub entered : Holds c.input unread
  pub books : c.accepted ≡ c.wire ++ (unsent ++ c.dropped)
  pub kept : (length c.dropped ≡ 0) ⊎ (is_disconnected c.state ≡ true)
  pub interest : Interest c unsent
  pub half :
      (c.shut ≡ false)
      ⊎ ((c.wire ≡ c.accepted)
          × ((is_disconnecting c.state ≡ true) ⊎ (is_disconnected c.state ≡ true)))
  pub once : (c.closes ≡ 0) ⊎ ((c.closes ≡ 1) × (is_disconnected c.state ≡ true))

send_all-parts :
    (results : List SendResult) (bytes : List ℕ)
    → (send_all results bytes).0 ++ (send_all results bytes).1 ≡ bytes
unfolding send_all
send_all-parts [] bytes = refl
send_all-parts (wrote n ∷ results) bytes = elim (Bool-cases (length (drop (suc n) bytes) == 0)) [
  | inl e ↦ rw e (append-nil bytes)
  | inr e ↦ rw e (
      append_assoc (take (suc n) bytes) (send_all results (drop (suc n) bytes)).0
        (send_all results (drop (suc n) bytes)).1
      ∙ ap (λ xs. take (suc n) bytes ++ xs) (send_all-parts results (drop (suc n) bytes))
      ∙ take-append-drop (suc n) bytes)
]
send_all-parts (interrupted ∷ results) bytes = send_all-parts results bytes
send_all-parts (would_block ∷ results) bytes = refl
send_all-parts (broken ∷ results) bytes = refl

pub handle_close-Sound : (c : Connection) → Sound c → Sound (handle_close c)
unfolding handle_close
handle_close-Sound c h = elim (Bool-cases (is_disconnected c.state)) [
  | inl e ↦ rw e h
  | inr e ↦ rw e (record {
    unsent = h.unsent;
    unread = h.unread;
    held = h.held;
    entered = h.entered;
    books = h.books;
    kept = inr refl;
    interest = inl (refl, refl);
    half = ground (arith, h.half);
    once = ground (arith, h.once);
  })
]

pub empty_list : (xs : List ℕ) → length xs ≡ 0 → xs ≡ []
empty_list [] e = refl
empty_list (x ∷ xs) e = absurd (omega (arith, e))

pub connected_open : (s : State) → is_connected s ≡ true → is_disconnected s ≡ false
connected_open connected e = refl
connected_open connecting e = cc
connected_open disconnecting e = cc
connected_open disconnected e = cc

-- What is left is behind what is in the buffer.
queue_rest-Sound :
    (left : List ℕ) (c : Connection) (unsent unread : List ℕ)
    → Holds c.output unsent
    → Holds c.input unread
    → c.output.writer_index + length left ≤ max_size
    → c.accepted ≡ c.wire ++ (unsent ++ left)
    → length c.dropped ≡ 0
    → is_connected c.state ≡ true
    → c.shut ≡ false
    → c.closes ≡ 0
    → Asks c unsent
    → Returns (queue_rest left c) Sound
unfolding queue_rest
queue_rest-Sound left c unsent unread held entered fits books none_dropped open_state open_side once
      interest =
    elim (Bool-cases (length left == 0)) [
      | inl e ↦ rw e (
        c,
        refl,
        record {
          unsent = unsent;
          unread = unread;
          held = held;
          entered = entered;
          books =
              books
              ∙ ap (λ xs. c.wire ++ (unsent ++ xs))
                  (empty_list left (ground (arith, e)) ∙ sym (empty_list c.dropped none_dropped));
          kept = inl none_dropped;
          interest = inr (connected_open c.state open_state, interest);
          half = inl open_side;
          once = inl once;
        },
      )
      | inr e ↦ rw e (
          Returns-bind Sound _ (append-Holds left c.output unsent held fits) (λ output k. (
            _,
            refl,
            record {
              unsent = unsent ++ left;
              unread = unread;
              held = k;
              entered = entered;
              books =
                  books
                  ∙ ap (λ xs. c.wire ++ xs) (sym (append-nil (unsent ++ left)))
                  ∙ ap (λ xs. c.wire ++ ((unsent ++ left) ++ xs))
                      (sym (empty_list c.dropped none_dropped));
              kept = inl none_dropped;
              interest = inr (
                connected_open c.state open_state,
                inr (refl, ground (arith, e, length-append unsent left)),
              );
              half = inl open_side;
              once = inl once;
            },
          )))
    ]

-- A connection that is open and has not shut its side down has told of no close.
pub opened :
    (c : Connection) (h : Sound c)
    → is_connected c.state ≡ true
    → (length c.dropped ≡ 0) × (c.shut ≡ false) × (c.closes ≡ 0) × Asks c h.unsent
opened c h e = ground (arith, e, connected_open c.state e, h.kept, h.half, h.once, h.interest)

pub all_sent :
    (c : Connection) (h : Sound c)
    → length h.unsent ≡ 0
    → length c.dropped ≡ 0
    → c.accepted ≡ c.wire
all_sent c h empty none_dropped =
    h.books
    ∙ ap₂ (λ xs ys. c.wire ++ (xs ++ ys)) (empty_list h.unsent empty)
        (empty_list c.dropped none_dropped)
    ∙ append-nil c.wire

sent_books :
    (gone left message : List ℕ) (c : Connection) (h : Sound c)
    → gone ++ left ≡ message
    → length h.unsent ≡ 0
    → length c.dropped ≡ 0
    → c.accepted ++ message ≡ (c.wire ++ gone) ++ (h.unsent ++ left)
sent_books gone left message c h parts empty none_dropped =
    ap₂ (λ xs ys. xs ++ ys) (all_sent c h empty none_dropped) (sym parts)
    ∙ sym (append_assoc c.wire gone left)
    ∙ ap (λ xs. (c.wire ++ gone) ++ (xs ++ left)) (sym (empty_list h.unsent empty))

after_send-Sound :
    (gone left : List ℕ) (broke : Bool) (message : List ℕ) (c : Connection) (h : Sound c)
    → gone ++ left ≡ message
    → is_connected c.state ≡ true
    → c.output.writer_index + length left ≤ max_size
    → length h.unsent ≡ 0
    → c.writing ≡ false
    → Returns (after_send (gone, left, broke) (record c { accepted = c.accepted ++ message })) Sound
unfolding after_send handle_close
after_send-Sound gone left true message c h parts e fits empty idle =
    let (none_dropped, open_side, once, interest) = opened c h e in
    rw (connected_open c.state e) (
      _,
      refl,
      record {
        unsent = h.unsent;
        unread = h.unread;
        held = h.held;
        entered = h.entered;
        books = sent_books gone left message c h parts empty none_dropped;
        kept = inr refl;
        interest = inl (refl, refl);
        half = inl open_side;
        once = inr (omega (arith, once), refl);
      },
    )
after_send-Sound gone left false message c h parts e fits empty idle =
    let (none_dropped, open_side, once, interest) = opened c h e in
    queue_rest-Sound left (record c { accepted = c.accepted ++ message; wire = c.wire ++ gone })
      h.unsent h.unread h.held h.entered fits
      (sent_books gone left message c h parts empty none_dropped) none_dropped e open_side once
      (inl (idle, empty))

left_le : (gone left message : List ℕ) → gone ++ left ≡ message → length left ≤ length message
left_le gone left message e = omega (arith, ap length e, length-append gone left)

pub send_in_loop-Sound :
    (results : List SendResult) (message : List ℕ) (c : Connection)
    → c.output.writer_index + length message ≤ max_size
    → Sound c
    → Returns (send_in_loop results message c) Sound
unfolding send_in_loop
send_in_loop-Sound results message c fits h =
    elim (Bool-cases (not (is_connected c.state) || length message == 0)) [
      | inl e ↦ rw e (c, refl, h)
      | inr e ↦
          let on : is_connected c.state ≡ true = ground (arith, e) in
          rw e (elim (Bool-cases (not c.writing && readable_bytes c.output == 0)) [
            | inl direct ↦
                let empty : length h.unsent ≡ 0 =
                  ground (arith, direct, readable_bytes_lem h.held) in
                let parts = send_all-parts results message in
                rw direct (
                  after_send-Sound (send_all results message).0 (send_all results message).1
                    (send_all results message).2 message c h parts on
                    (omega (
                      arith,
                      fits,
                      left_le (send_all results message).0 (send_all results message).1 message
                          parts,
                    ))
                    empty (ground (arith, direct)))
            | inr queued ↦
                let (none_dropped, open_side, once, interest) = opened c h on in
                rw queued (
                  queue_rest-Sound message (record c { accepted = c.accepted ++ message }) h.unsent
                    h.unread h.held h.entered fits
                    (ap (λ xs. xs ++ message)
                        (h.books
                          ∙ ap (λ ys. c.wire ++ (h.unsent ++ ys))
                              (empty_list c.dropped none_dropped)
                          ∙ ap (λ ys. c.wire ++ ys) (append-nil h.unsent))
                      ∙ append_assoc c.wire h.unsent message)
                    none_dropped on open_side once interest)
          ])
    ]
