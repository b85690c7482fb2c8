-- ===== src/MiniReactor/Connection/Write.antt =====
-- `handleWrite` of code/MiniReactor/src/net/TcpConnection.cpp.
use unix_notes.Prelude.{
  take-append-drop, ℕ, zero, suc, ◌≤◌, ◌<◌, ◌≡◌, refl, sym, ap, subst, ◌∙◌, inl, inr, Bool, true,
  false, not, List, [], ◌∷◌, ◌++◌, arith, length, length-append, ◌==◌, if◌then◌else◌, Bool-cases,
  min, ok, ◌>>=◌, Returns, Returns-bind, take, drop, append-nil, append_assoc,
}
use unix_notes.MiniReactor.Buffer.{Buffer, readable_bytes, peek}
use unix_notes.MiniReactor.Buffer.Refine.{Holds, readable_bytes_lem, peek-parts}
use unix_notes.MiniReactor.Buffer.Text.{retrieve-Holds}
use unix_notes.MiniReactor.Connection.{
  SendResult, wrote, interrupted, would_block, broken, Connection, is_disconnecting,
  is_disconnected, drain, written_out, handle_write,
}
use unix_notes.MiniReactor.Connection.Sound.{Sound, handle_close-Sound, empty_list}

-- A connection that is open and still writes.
pub record Loop (c : Connection) (unsent unread : List ℕ) : Type 0 where
  pub held : Holds c.output unsent
  pub entered : Holds c.input unread
  pub books : c.accepted ≡ c.wire ++ unsent
  pub none_dropped : length c.dropped ≡ 0
  pub busy : c.writing ≡ true
  pub open_state : is_disconnected c.state ≡ false
  pub open_side : c.shut ≡ false
  pub once : c.closes ≡ 0

abbrev AfterLoop : List ℕ → Connection × Bool → Type 0
AfterLoop unread (c, true) = Loop c [] unread
AfterLoop unread (c, false) = Sound c

module _ (unread : List ℕ) where
  loop-Sound :
      (c : Connection) (unsent : List ℕ) → Loop c unsent unread → 0 < length unsent → Sound c
  loop-Sound c unsent h more = record {
    unsent = unsent;
    unread = unread;
    held = h.held;
    entered = h.entered;
    books =
        h.books
        ∙ ap (λ xs. c.wire ++ xs) (sym (append-nil unsent))
        ∙ ap (λ xs. c.wire ++ (unsent ++ xs)) (sym (empty_list c.dropped h.none_dropped));
    kept = inl h.none_dropped;
    interest = inr (h.open_state, inr (h.busy, more));
    half = inl h.open_side;
    once = inl h.once;
  }

  -- Where the loop looks at the buffer.
  pub seen_empty :
      (c : Connection) (unsent : List ℕ)
      → Loop c unsent unread
      → (readable_bytes c.output == 0) ≡ true
      → AfterLoop unread (c, true)
  seen_empty c unsent h e =
      subst (λ xs. Loop c xs unread)
        (empty_list unsent (ground (arith, e, readable_bytes_lem h.held))) h

  pub seen_more :
      (c : Connection) (unsent : List ℕ)
      → Loop c unsent unread
      → (readable_bytes c.output == 0) ≡ false
      → 0 < length unsent
  seen_more c unsent h e = ground (arith, e, readable_bytes_lem h.held)

  stopped :
      (c : Connection) (unsent : List ℕ)
      → Loop c unsent unread
      → AfterLoop unread (c, readable_bytes c.output == 0)
  stopped c unsent h = elim (Bool-cases (readable_bytes c.output == 0)) [
    | inl e ↦ rw e (seen_empty c unsent h e)
    | inr e ↦ rw e (loop-Sound c unsent h (seen_more c unsent h e))
  ]

  -- The bytes that the kernel takes are the first of the buffer.
  peek_first :
      (n : ℕ) (b : Buffer) (unsent : List ℕ)
      → Holds b unsent
      → n ≤ length unsent
      → take n (peek b) ≡ take n unsent
  peek_first n b unsent h le = ap (take n) (peek-parts h) ∙ take_shorter n unsent h.back le
    where
      take_shorter : (n : ℕ) (xs ys : List ℕ) → n ≤ length xs → take n (xs ++ ys) ≡ take n xs
      take_shorter zero xs ys h = refl
      take_shorter (suc n) [] ys h = absurd (omega arith)
      take_shorter (suc n) (x ∷ xs) ys h = ap (λ l. x ∷ l) (take_shorter n xs ys (omega arith))

  -- One answer of the kernel that takes `k` bytes.
  pub sent-Loop :
      (k : ℕ) (c : Connection) (unsent : List ℕ) (output : Buffer)
      → Loop c unsent unread
      → k ≤ length unsent
      → Holds output (drop k unsent)
      → Loop
          (record c { output = output; wire = c.wire ++ take k (peek c.output) })
          (drop k unsent)
          unread
  sent-Loop k c unsent output h le held = record {
    held = held;
    entered = h.entered;
    books =
        h.books
        ∙ ap (λ xs. c.wire ++ xs) (sym (take-append-drop k unsent))
        ∙ sym (append_assoc c.wire (take k unsent) (drop k unsent))
        ∙ ap (λ xs. (c.wire ++ xs) ++ drop k unsent) (sym (peek_first k c.output unsent h.held le));
    none_dropped = h.none_dropped;
    busy = h.busy;
    open_state = h.open_state;
    open_side = h.open_side;
    once = h.once;
  }

  drain-Loop :
      (results : List SendResult) (c : Connection) (unsent : List ℕ)
      → Loop c unsent unread
      → Returns (drain results c) (AfterLoop unread)
  unfolding drain
  drain-Loop [] c unsent h = (_, refl, stopped c unsent h)
  drain-Loop (would_block ∷ results) c unsent h = (_, refl, stopped c unsent h)
  drain-Loop (interrupted ∷ results) c unsent h = elim (Bool-cases (readable_bytes c.output == 0)) [
    | inl e ↦ rw e (_, refl, seen_empty c unsent h e)
    | inr e ↦ rw e (drain-Loop results c unsent h)
  ]
  drain-Loop (broken ∷ results) c unsent h = elim (Bool-cases (readable_bytes c.output == 0)) [
    | inl e ↦ rw e (_, refl, seen_empty c unsent h e)
    | inr e ↦ rw e (_, refl, handle_close-Sound c (loop-Sound c unsent h (seen_more c unsent h e)))
  ]
  drain-Loop (wrote n ∷ results) c unsent h = elim (Bool-cases (readable_bytes c.output == 0)) [
    | inl e ↦ rw e (_, refl, seen_empty c unsent h e)
    | inr e ↦
        let k = min (suc n) (readable_bytes c.output) in
        let le : k ≤ length unsent = omega (arith, readable_bytes_lem h.held) in
        rw e (elim (retrieve-Holds k c.output unsent h.held) [
          | inl (_, ret) ↦ Returns-bind (AfterLoop unread) _ ret (λ output held.
              drain-Loop results
                (record c { output = output; wire = c.wire ++ take k (peek c.output) })
                (drop k unsent) (sent-Loop k c unsent output h le held))
          | inr (short, _) ↦ absurd (omega arith)
        ])
  ]

-- After the loop.
emptied-Sound :
    (c : Connection) (unread : List ℕ) → Loop c [] unread → Sound (written_out (c, true))
emptied-Sound c unread h = record {
  unsent = [];
  unread = unread;
  held = h.held;
  entered = h.entered;
  books = h.books ∙ ap (λ xs. c.wire ++ xs) (sym (empty_list c.dropped h.none_dropped));
  kept = inl h.none_dropped;
  interest = inr (h.open_state, inl (refl, refl));
  half = elim (Bool-cases (is_disconnecting c.state)) [
    | inl e ↦ rw e (inr (sym (h.books ∙ append-nil c.wire), inl refl))
    | inr e ↦ rw e (inl h.open_side)
  ];
  once = inl h.once;
}

written_out-Sound :
    (unread : List ℕ) (d : Connection × Bool) → AfterLoop unread d → Sound (written_out d)
written_out-Sound unread (c, true) h = emptied-Sound c unread h
written_out-Sound unread (c, false) h = h

pub start-Loop : (c : Connection) (h : Sound c) → c.writing ≡ true → Loop c h.unsent h.unread
start-Loop c h busy =
    let up : is_disconnected c.state ≡ false = ground (arith, busy, h.interest) in
    let more : 0 < length h.unsent = ground (arith, busy, h.interest) in
    let none_dropped : length c.dropped ≡ 0 = ground (arith, up, h.kept) in
    record {
      held = h.held;
      entered = h.entered;
      books =
          h.books
          ∙ ap (λ xs. c.wire ++ (h.unsent ++ xs)) (empty_list c.dropped none_dropped)
          ∙ ap (λ xs. c.wire ++ xs) (append-nil h.unsent);
      none_dropped = none_dropped;
      busy = busy;
      open_state = up;
      open_side = elim h.half [
        | inl e ↦ e
        | inr (all, _) ↦ absurd (
            omega (
              arith,
              more,
              ap length all,
              ap length h.books,
              length-append c.wire (h.unsent ++ c.dropped),
              length-append h.unsent c.dropped,
            ))
      ];
      once = ground (arith, up, h.once);
    }

write_picked :
    (results : List SendResult) (c : Connection) (busy : Bool)
    → Sound c
    → c.writing ≡ busy
    → Returns
        (if not busy then ok c else do drained ← drain results c; ok (written_out drained))
        Sound
write_picked results c false h e = (c, refl, h)
write_picked results c true h e =
    Returns-bind Sound _ (drain-Loop h.unread results c h.unsent (start-Loop c h e))
      (λ d k. (written_out d, refl, written_out-Sound h.unread d k))

pub handle_write-Sound :
    (results : List SendResult) (c : Connection) → Sound c → Returns (handle_write results c) Sound
unfolding handle_write
handle_write-Sound results c h = write_picked results c c.writing h refl
