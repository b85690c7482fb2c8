-- ===== src/ThreadPool/Pool/Weigh.antt =====
-- Tasks in the queues of code/ThreadPool, counted by a number `w` of each task.
use unix_notes.Prelude.{
  ℕ, zero, suc, ◌+◌, ◌<◌, ◌≡◌, refl, List, [], ◌∷◌, ◌++◌, Option, none, some, arith, length, get_or,
  set,
}
use unix_notes.ThreadPool.Local
use unix_notes.ThreadPool.Local.{behind, try_pop_owner}

module _ {T : Type 0} (w : T → ℕ) where
  abbrev pub weigh : List T → ℕ
  weigh [] = 0
  weigh (x ∷ xs) = w x + weigh xs

  abbrev pub weigh_all : List (List T) → ℕ
  weigh_all [] = 0
  weigh_all (q ∷ qs) = weigh q + weigh_all qs

  pub weigh-append : (xs ys : List T) → weigh (xs ++ ys) ≡ weigh xs + weigh ys
  weigh-append [] ys = omega arith
  weigh-append (x ∷ xs) ys = omega (arith, weigh-append xs ys)

  -- A queue that is replaced.
  pub weigh_all-set :
      (qs : List (List T)) (i : ℕ) (q : List T)
      → i < length qs
      → weigh_all (set qs i q) + weigh (get_or qs i []) ≡ weigh_all qs + weigh q
  weigh_all-set [] i q h = absurd (omega arith)
  weigh_all-set (p ∷ qs) zero q h = omega arith
  weigh_all-set (p ∷ qs) (suc i) q h = omega (arith, weigh_all-set qs i q (omega arith))

  -- What a section takes out of a queue, with what it leaves, is the queue.
  abbrev pub Parted : List T → Option (T × List T) → Type 0
  Parted q none = Unit
  Parted q (some (x, rest)) = weigh q ≡ w x + weigh rest

  pub pop_owner-Parted : (q : List T) → Parted q (try_pop_owner q)
  pop_owner-Parted [] = tt
  pop_owner-Parted (x ∷ q) = refl

  behind-Parted :
      (x : T) (q : List T) (o : Option (T × List T)) → Parted q o → Parted (x ∷ q) (behind x o)
  behind-Parted x q none h = tt
  behind-Parted x q (some (y, ys)) h = omega arith

  pub steal-Parted : (q : List T) → Parted q (Local.try_steal q)
  unfolding Local.try_steal
  steal-Parted [] = tt
  steal-Parted (x ∷ []) = refl
  steal-Parted (x ∷ y ∷ q) =
      behind-Parted x (y ∷ q) (Local.try_steal (y ∷ q)) (steal-Parted (y ∷ q))
