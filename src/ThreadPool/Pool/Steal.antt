-- ===== src/ThreadPool/Pool/Steal.antt =====
-- `TrySteal` and `HasStealableWork` of code/ThreadPool/ThreadPool.cpp.
use unix_notes.Prelude.{
  ℕ, zero, suc, ◌+◌, ◌-◌, ◌≡◌, refl, Bool, true, false, not, List, [], ◌∷◌, Option, none, some,
  arith, length, get_or,
}
use unix_notes.ThreadPool.Local
use unix_notes.ThreadPool.Local.{is_empty, behind}
use unix_notes.ThreadPool.Pool.{
  Pool, victim, taken, steal_from, steal_rounds, try_steal, stealable_rounds, has_stealable_work,
}

abbrev pub is_some {ℓ} : {A : Type ℓ} → Option A → Bool
is_some none = false
is_some (some a) = true

module _ {T : Type 0} where
  is_some-behind : (x : T) (o : Option (T × List T)) → is_some (behind x o) ≡ is_some o
  is_some-behind x none = refl
  is_some-behind x (some (y, ys)) = refl

  is_some-try_steal : (queue : List T) → is_some (Local.try_steal queue) ≡ not (is_empty queue)
  unfolding Local.try_steal
  is_some-try_steal [] = refl
  is_some-try_steal (x ∷ []) = refl
  is_some-try_steal (x ∷ y ∷ queue) =
      ground (arith, is_some-behind x (Local.try_steal (y ∷ queue)), is_some-try_steal (y ∷ queue))

  is_some-taken : (i : ℕ) (o : Option (T × List T)) (p : Pool T) → is_some (taken i o p) ≡ is_some o
  is_some-taken i none p = refl
  is_some-taken i (some (x, xs)) p = refl

  is_some-steal_from :
      (worker offset : ℕ) (p : Pool T)
      → is_some (steal_from worker offset p)
        ≡ not (is_empty (get_or p.locals (victim worker offset p) []))
  unfolding steal_from
  is_some-steal_from worker offset p = ground (
    arith,
    is_some-taken (victim worker offset p)
        (Local.try_steal (get_or p.locals (victim worker offset p) [])) p,
    is_some-try_steal (get_or p.locals (victim worker offset p) []),
  )

  steal_rounds_lem :
      (n worker offset : ℕ) (p : Pool T)
      → is_some (steal_rounds n worker offset p) ≡ stealable_rounds n worker offset p
  unfolding steal_rounds stealable_rounds
  steal_rounds_lem zero worker offset p = refl
  steal_rounds_lem (suc n) worker offset p =
      ground (arith, is_some-steal_from worker offset p, steal_rounds_lem n worker (offset + 1) p)

  -- With no other thread in between, `TrySteal` finds a task exactly if `HasStealableWork` says that
  -- there is one.
  pub try_steal_finds :
      (worker : ℕ) (p : Pool T) → is_some (try_steal worker p) ≡ has_stealable_work worker p
  unfolding try_steal has_stealable_work
  try_steal_finds worker p = steal_rounds_lem (length p.locals - 1) worker 1 p
