-- ===== src/MiniReactor/Connection/Emptied.antt =====
-- `handleWrite` of code/MiniReactor/src/net/TcpConnection.cpp where the socket takes bytes each time.
use unix_notes.Prelude.{
  ℕ, suc, ◌≤◌, ◌<◌, ◌≡◌, refl, sym, ap, ◌∙◌, inl, inr, Bool, true, false, not, List, [], ◌∷◌, ◌++◌,
  map, arith, length, length-drop, ◌==◌, if◌then◌else◌, Bool-cases, min, ok, ◌>>=◌, Returns,
  Returns-bind, take, drop, append-nil,
}
use unix_notes.MiniReactor.Buffer.{readable_bytes, peek}
use unix_notes.MiniReactor.Buffer.Refine.{readable_bytes_lem}
use unix_notes.MiniReactor.Buffer.Text.{retrieve-Holds}
use unix_notes.MiniReactor.Connection.{
  wrote, Connection, is_disconnecting, drain, written_out, handle_write,
}
use unix_notes.MiniReactor.Connection.Sound.{Sound}
use unix_notes.MiniReactor.Connection.Write.{Loop, seen_empty, seen_more, sent-Loop, start-Loop}

-- The kernel takes bytes as often as there are bytes.
drain_all :
    (unread : List ℕ) (sizes : List ℕ) (c : Connection) (unsent : List ℕ)
    → Loop c unsent unread
    → length unsent ≤ length sizes
    → Returns
        (drain (map wrote sizes) c)
        (λ d. Loop d.0 [] unread × (d.1 ≡ true) × (d.0.state ≡ c.state) × (d.0.shut ≡ c.shut))
unfolding drain
drain_all unread [] c unsent h le =
    let e : (readable_bytes c.output == 0) ≡ true = ground (arith, readable_bytes_lem h.held) in
    rw e (_, refl, (seen_empty unread c unsent h e, refl, refl, refl))
drain_all unread (n ∷ sizes) c unsent h le = elim (Bool-cases (readable_bytes c.output == 0)) [
  | inl e ↦ rw e (_, refl, (seen_empty unread c unsent h e, refl, refl, refl))
  | inr e ↦
      let k = min (suc n) (readable_bytes c.output) in
      let some_left : 0 < length unsent = seen_more unread c unsent h e in
      let within : k ≤ length unsent = omega (arith, readable_bytes_lem h.held) in
      rw e (elim (retrieve-Holds k c.output unsent h.held) [
        | inl (_, ret) ↦
            Returns-bind
              (λ d. Loop d.0 [] unread × (d.1 ≡ true) × (d.0.state ≡ c.state) × (d.0.shut ≡ c.shut))
              _ ret
              (λ output held.
                drain_all unread sizes
                  (record c { output = output; wire = c.wire ++ take k (peek c.output) })
                  (drop k unsent) (sent-Loop unread k c unsent output h within held)
                  (omega (arith, length-drop k unsent, readable_bytes_lem h.held)))
        | inr (short, _) ↦ absurd (omega arith)
      ])
]

all_on_wire :
    (c : Connection) (unread : List ℕ)
    → Loop c [] unread
    → (c.wire ≡ c.accepted) × ((written_out (c, true)).shut ≡ is_disconnecting c.state)
all_on_wire c unread h = (
  sym (h.books ∙ append-nil c.wire),
  elim (Bool-cases (is_disconnecting c.state)) [ inl e ↦ rw e refl | inr e ↦ rw e h.open_side ],
)

empties_picked :
    (sizes : List ℕ) (c : Connection) (busy : Bool) (h : Sound c)
    → c.writing ≡ busy
    → busy ≡ true
    → length h.unsent ≤ length sizes
    → Returns
        (if not busy
          then ok c
          else do drained ← drain (map wrote sizes) c; ok (written_out drained))
        (λ d.
          (d.wire ≡ d.accepted)
          × (d.writing ≡ false)
          × (d.state ≡ c.state)
          × (d.shut ≡ is_disconnecting c.state))
empties_picked sizes c false h e no_use le = absurd (cc)
empties_picked sizes c true h e is_busy le =
    Returns-bind _ _ (drain_all h.unread sizes c h.unsent (start-Loop c h e) le)
      (λ (d, emptied) (k, all, same, side).
        let (sent, shut) = all_on_wire d h.unread k in
        rw all (_, refl, (sent, refl, same, shut ∙ ap is_disconnecting same)))

-- A connection that waits to write, and whose socket takes bytes as often as bytes are unsent, has
-- afterwards every byte that it has taken on on the wire, no longer waits to write, and has shut its
-- write side down just if it is disconnecting.
pub handle_write_empties :
    (sizes : List ℕ) (c : Connection) (h : Sound c)
    → c.writing ≡ true
    → length h.unsent ≤ length sizes
    → Returns (handle_write (map wrote sizes) c) (λ d.
      (d.wire ≡ d.accepted)
      × (d.writing ≡ false)
      × (d.state ≡ c.state)
      × (d.shut ≡ is_disconnecting c.state))
unfolding handle_write
handle_write_empties sizes c h busy le = empties_picked sizes c c.writing h refl busy le
