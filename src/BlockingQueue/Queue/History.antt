-- ===== src/BlockingQueue/Queue/History.antt =====
-- What a program sees of a `BlockingQueue`, whatever its threads do and in whatever order.
use unix_notes.Prelude.{
  ℕ, ◌≤◌, ◌<◌, ◌≡◌, refl, sym, ap, subst, ◌∙◌, List, [], ◌∷◌, ◌++◌, true, false, arith, length,
  append_assoc, append-nil, Returns, Returns-bind, Agrees-Settled, size_limit, Returns-map,
  Returns-both, All, ◌>>=◌, ==_ne, inl, inr,
}
use unix_notes.BlockingQueue.Ring.Refine.{Holds, Turns-bounds, new_refines}
use unix_notes.BlockingQueue.Call.{Call, accepted, delivered}
use unix_notes.BlockingQueue.Channel.{Channel, Answer}
use unix_notes.BlockingQueue.Channel
use unix_notes.BlockingQueue.Fifo
use unix_notes.BlockingQueue.Channel.Laws.{
  accepted-waiting, Moves, Refuses, Closed, Returned, step-Lawful, step-Closed,
}
use unix_notes.BlockingQueue.Schedule.{Log, run, puts, gots}
use unix_notes.BlockingQueue.Queue.{Queue, new, step}
use unix_notes.BlockingQueue.Queue.Refine.{Represents, SameAnswer, step_refines}

module _ {T : Type 0} where
  -- After the schedule the queue represents a channel, and what was there at first with what was put
  -- in since is what was taken out, in order, with what is there now.
  abbrev pub Balanced : ℕ → Channel T → Queue T × Log T → Type 0
  Balanced bound c s =
      (c' : Channel T) × Represents bound s.0 c' × (c.items ++ puts s.1 ≡ gots s.1 ++ c'.items)

  -- The two parts of a schedule balance together.
  balance :
      (xs ins outs ys ins' outs' zs : List T)
      → xs ++ ins ≡ outs ++ ys
      → ys ++ ins' ≡ outs' ++ zs
      → xs ++ (ins ++ ins') ≡ (outs ++ outs') ++ zs
  balance xs ins outs ys ins' outs' zs e f =
      sym (append_assoc xs ins ins')
      ∙ ap (λ l. l ++ ins') e
      ∙ append_assoc outs ys ins'
      ∙ ap (λ l. outs ++ l) f
      ∙ sym (append_assoc outs outs' zs)

  run-Balanced :
      {bound : ℕ} (calls : List (Call T)) (q : Queue T) (c : Channel T)
      → Represents bound q c
      → Returns (run step calls q) (Balanced bound c)
  unfolding run
  run-Balanced [] q c h = ((q, []), refl, (c, h, append-nil c.items))
  run-Balanced {bound} (call ∷ calls) q c h =
      elim (Agrees-Settled (SameAnswer bound) (Unit {0}) (Moves bound call c) _ _
        (step_refines call q c h)
        (step-Lawful bound call c.items c.closed (Turns-bounds h.holds.turns).0)) [
          | inl ((q', r, sig), (c', r', sig'), e, (h', same, _), law) ↦ rw e (
              Returns-bind _ _ (run-Balanced calls q' c' h') λ s b. (
                _,
                refl,
                (
                  b.0,
                  b.1,
                  balance c.items (accepted call r) (delivered r) c'.items _ _ b.0.items
                      (rw same law.0) b.2,
                ),
              ))
          | inr (e, _) ↦ rw e (
              Returns-bind _ _ (run-Balanced calls q c h)
                λ s b. (_, refl, (b.0, b.1, rw (accepted-waiting call) b.2)))
        ]

  -- Once closed, the calls of a schedule only take out what is there, and none of them waits.
  abbrev pub Drained : Queue T × Log T → Type 0
  Drained s = (puts s.1 ≡ []) × (s.0.closed ≡ true) × All (λ entry. Returned entry.1) s.1

  closed_step :
      (bound : ℕ) (call : Call T) (c : Channel T)
      → c.closed ≡ true
      → Closed call (Channel.step bound call c)
  closed_step bound call c e =
      subst (λ b. Closed call (Channel.step bound call (record { items = c.items; closed = b })))
        (sym e) (step-Closed bound call c.items)

  run-Drained :
      {bound : ℕ} (calls : List (Call T)) (q : Queue T) (c : Channel T)
      → Represents bound q c
      → c.closed ≡ true
      → Returns (run step calls q) Drained
  unfolding run
  run-Drained [] q c h shut = ((q, []), refl, (refl, h.same_flag ∙ shut, tt))
  run-Drained {bound} (call ∷ calls) q c h shut =
      elim (Agrees-Settled (SameAnswer bound) ⊥ (Refuses call) _ _ (step_refines call q c h)
        (closed_step bound call c shut)) [
          | inl ((q', r, sig), (c', r', sig'), e, (h', same, _), law) ↦ rw e (
              Returns-bind _ _ (run-Drained calls q' c' h' law.1)
                λ s b. (_, refl, (rw (same, law.0) b.0, b.1, (rw same law.2, b.2))))
          | inr (e, w) ↦ absurd w
        ]

  -- The constructor refuses a capacity of zero, and otherwise makes an open empty queue.
  new-Represents :
      (bound : ℕ)
      → 0 < bound
      → bound < size_limit
      → Returns
          (new {T = T} bound)
          (λ q. Represents bound q (record { items = []; closed = false }))
  unfolding new Fifo.new
  new-Represents bound pos word =
      elim (Agrees-Settled (Holds bound) ⊥ (λ items. items ≡ []) _ _ (new_refines T bound word)
        (ground arith)) [
          | inl (r, items, e, h, none_yet) ↦
              rw (e, ==_ne bound 0 (omega arith))
                (
                  _,
                  refl,
                  record { holds = rw (← none_yet) h; same_flag = refl; same_capacity = refl },
                )
          | inr (e, w) ↦ absurd w
        ]

  -- From the constructor on, over any schedule of calls by any threads: no call throws or is
  -- undefined, the values taken out are those put in, each once and in the order in which they went
  -- in, what is not taken out yet is what the buffer holds, and it holds at most `bound` values.
  pub schedule_fifo :
      (bound : ℕ) (calls : List (Call T))
      → 0 < bound
      → bound < size_limit
      → Returns (new bound >>= run step calls) (λ s.
        (items : List T) × Holds bound s.0.buffer items
        × (puts s.1 ≡ gots s.1 ++ items)
        × (length items ≤ bound))
  schedule_fifo bound calls pos word = Returns-bind _ _ (new-Represents bound pos word) λ q h.
      Returns-map _ (run-Balanced calls q _ h)
        λ s b. (b.0.items, b.1.holds, b.2, (Turns-bounds b.1.holds.turns).0)

  -- Once a queue is closed, no schedule of calls waits, throws or puts anything in; the values taken
  -- out are the oldest of those that were in it when it was closed, in order.
  pub closed_drains :
      {bound : ℕ} (calls : List (Call T)) (q : Queue T) (items : List T)
      → Represents bound q (record { items = items; closed = true })
      → Returns (run step calls q) (λ s.
        All (λ entry. Returned entry.1) s.1
        × (puts s.1 ≡ [])
        × (s.0.closed ≡ true)
        × ((left : List T) × (items ≡ gots s.1 ++ left)))
  closed_drains {bound} calls q items h =
      Returns-map _ (Returns-both (run-Drained calls q _ h refl) (run-Balanced calls q _ h))
        λ s (d, b). (d.2, d.0, d.1, (b.0.items, sym (append-nil items) ∙ rw d.0 at b.2))
