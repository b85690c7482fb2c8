-- ===== src/MiniReactor/Connection/Close.antt =====
-- `shutdown`, `forceClose` and `connectDestroyed` of code/MiniReactor/src/net/TcpConnection.cpp.
use unix_notes.Prelude.{
  ◌≡◌, refl, sym, ◌⊎◌, inl, inr, true, false, ◌||◌, arith, length, if◌then◌else◌, Bool-cases,
}
use unix_notes.MiniReactor.Connection.{
  disconnecting, Connection, is_connected, is_disconnecting, is_disconnected, connect_destroyed,
  shutdown_in_loop, force_close_in_loop,
}
use unix_notes.MiniReactor.Connection.Sound.{Asks, Sound, handle_close-Sound, opened, all_sent}

pub shutdown_in_loop-Sound : (c : Connection) → Sound c → Sound (shutdown_in_loop c)
unfolding shutdown_in_loop
shutdown_in_loop-Sound c h = elim (Bool-cases (is_connected c.state)) [
  | inr e ↦ rw e h
  | inl e ↦
      let (none_dropped, open_side, once, interest) = opened c h e in
      rw e (record {
        unsent = h.unsent;
        unread = h.unread;
        held = h.held;
        entered = h.entered;
        books = h.books;
        kept = inl none_dropped;
        interest = inr (refl, interest);
        half = shut_half c h none_dropped open_side interest;
        once = inl once;
      })
]
  where
    shut_half :
        (c : Connection) (h : Sound c)
        → length c.dropped ≡ 0
        → c.shut ≡ false
        → Asks c h.unsent
        → ((if c.writing then c.shut else true) ≡ false)
          ⊎ ((c.wire ≡ c.accepted)
              × ((is_disconnecting disconnecting ≡ true) ⊎ (is_disconnected disconnecting ≡ true)))
    shut_half c h none_dropped open_side (inl (idle, empty)) =
        inr (sym (all_sent c h empty none_dropped), inl refl)
    shut_half c h none_dropped open_side (inr (busy, more)) = inl (rw busy open_side)

pub force_close_in_loop-Sound : (c : Connection) → Sound c → Sound (force_close_in_loop c)
unfolding force_close_in_loop
force_close_in_loop-Sound c h =
    elim (Bool-cases (is_connected c.state || is_disconnecting c.state)) [
      | inl e ↦ rw e (handle_close-Sound c h)
      | inr e ↦ rw e h
    ]

pub connect_destroyed-Sound : (c : Connection) → Sound c → Sound (connect_destroyed c)
unfolding connect_destroyed
connect_destroyed-Sound c h = elim (Bool-cases (is_disconnected c.state)) [
  | inl e ↦ rw e h
  | inr e ↦ rw e (record {
    unsent = h.unsent;
    unread = h.unread;
    held = h.held;
    entered = h.entered;
    books = h.books;
    kept = inr refl;
    interest = inl (refl, refl);
    half = ground (arith, h.half);
    once = ground (arith, e, h.once);
  })
]
