-- ===== src/ThreadPool/Signals/Progress.antt =====
-- src/tpool.c: the rooms in which no thread can move by itself.
use ccore.Base.{
  ℕ, zero, suc, ◌+◌, ◌<◌, ◌≤◌, ◌≡◌, refl, ap, ◌⊎◌, inl, inr, Bool, true, false, List, [], ◌∷◌, ◌++◌,
  ◌==◌, length, arith, weigh,
}
use ccore.ThreadPool.{Pool, byte_mod, wait_ends}
use ccore.ThreadPool.Invariant.{count}
use ccore.ThreadPool.Quiet.{wait_finished}
use ccore.ThreadPool.Signals.{
  Thread, awake, asleep, busy, gone, Client, checking, waiting, returned, Room, Signal, one, nobody,
  waits, checks, is_active, is_busy, open_room, head_room, tail_room, check_room, Move, head, tail,
  check, Visits,
}
use ccore.ThreadPool.Signals.Refinement.{forget-Reach}
use ccore.ThreadPool.Signals.Invariant.{in_work-busy, Visits-IsServed}

-- Whoever sleeps, there is a signal that the condition variable can give.
not_positive : (k : ℕ) → (0 < k → ⊥) → k ≡ 0
not_positive zero h = refl
not_positive (suc k) h = absurd (h (omega arith))

behind :
    (c : Client) {cs : List Client}
    → waits c ≡ 0
    → (ds : List Client) × Signal waits checking cs ds
    → (ds : List Client) × Signal waits checking (c ∷ cs) ds
behind c awake_one (ds, one before w after slept from to) =
    (c ∷ ds, one (c ∷ before) w after slept (ap (λ l. c ∷ l) from) (ap (λ l. c ∷ l) to))
behind c {cs} awake_one (ds, nobody none_waits same) =
    (c ∷ cs, nobody (omega (arith, awake_one, none_waits)) refl)

pub any_signal : (cs : List Client) → (ds : List Client) × Signal waits checking cs ds
any_signal [] = ([], nobody refl refl)
any_signal (waiting ∷ cs) = (checking ∷ cs, one [] waiting cs refl refl refl)
any_signal (checking ∷ cs) = behind checking refl (any_signal cs)
any_signal (returned ∷ cs) = behind returned refl (any_signal cs)

-- The first caller that tests its condition.
pub find_checking :
    (cs : List Client)
    → (weigh checks cs ≡ 0)
      ⊎ ((before : List Client) × (after : List Client) × (cs ≡ before ++ checking ∷ after))
find_checking [] = inl refl
find_checking (checking ∷ cs) = inr ([], cs, refl)
find_checking (waiting ∷ cs) = elim (find_checking cs) [
  | inl none_checks ↦ inl (omega (arith, none_checks))
  | inr (before, after, at) ↦ inr (waiting ∷ before, after, ap (λ l. waiting ∷ l) at)
]
find_checking (returned ∷ cs) = elim (find_checking cs) [
  | inl none_checks ↦ inl (omega (arith, none_checks))
  | inr (before, after, at) ↦ inr (returned ∷ before, after, ap (λ l. returned ∷ l) at)
]

module _ {T : Type 0} where
  -- The first thread that can go on.
  data Active (ws : List (Thread T)) : Type 0 where
    an_awake : (before after : List (Thread T)) → ws ≡ before ++ awake ∷ after → Active ws
    a_busy :
        (before : List (Thread T)) (task : T) (after : List (Thread T))
        → ws ≡ before ++ busy task ∷ after
        → Active ws

  Active-behind : (w : Thread T) {ws : List (Thread T)} → Active ws → Active (w ∷ ws)
  Active-behind w (an_awake before after at) = an_awake (w ∷ before) after (ap (λ l. w ∷ l) at)
  Active-behind w (a_busy before task after at) =
      a_busy (w ∷ before) task after (ap (λ l. w ∷ l) at)

  find_runner : (ws : List (Thread T)) → (weigh is_active ws ≡ 0) ⊎ Active ws
  find_runner [] = inl refl
  find_runner (awake ∷ ws) = inr (an_awake [] ws refl)
  find_runner (busy task ∷ ws) = inr (a_busy [] task ws refl)
  find_runner (asleep ∷ ws) = elim (find_runner ws) [
    | inl none_active ↦ inl (omega (arith, none_active))
    | inr found ↦ inr (Active-behind asleep found)
  ]
  find_runner (gone ∷ ws) = elim (find_runner ws) [
    | inl none_active ↦ inl (omega (arith, none_active))
    | inr found ↦ inr (Active-behind gone found)
  ]

  is_busy-le : (ws : List (Thread T)) → weigh is_busy ws ≤ weigh is_active ws
  is_busy-le [] = omega arith
  is_busy-le (awake ∷ ws) = omega (arith, is_busy-le ws)
  is_busy-le (asleep ∷ ws) = omega (arith, is_busy-le ws)
  is_busy-le (busy task ∷ ws) = omega (arith, is_busy-le ws)
  is_busy-le (gone ∷ ws) = omega (arith, is_busy-le ws)

  Active-Move : (r : Room T) → Active r.threads → (u : Room T) × Move r u
  Active-Move r (an_awake before after at) = (head_room r before after, head before after at refl)
  Active-Move r (a_busy before task after at) =
      let (clients, signal) = any_signal r.clients in
      (tail_room r before task after clients, tail before task after clients at signal refl)

  -- A room in which some thread can move, or in which none is active and no caller tests.
  pub find-Move :
      (r : Room T)
      → ((u : Room T) × Move r u) ⊎ ((weigh is_active r.threads ≡ 0) × (weigh checks r.clients ≡ 0))
  find-Move r = elim (find_runner r.threads) [
    | inr found ↦ inl (Active-Move r found)
    | inl none_active ↦ elim (find_checking r.clients) [
      | inr (before, after, at) ↦ inl (check_room r before after, check before after at refl)
      | inl none_checks ↦ inr (none_active, none_checks)
    ]
  ]

  pub record IsSettled (r : Room T) : Type 0 where
    pub empty : r.pool.tasks ≡ []
    pub idle : weigh is_busy r.threads ≡ 0
    pub done : (p : T → Bool) → count p r.submitted ≡ count p r.finished
    pub back : weigh waits r.clients + weigh checks r.clients ≡ 0

  idle_ends :
      (pool : Pool T)
      → length pool.tasks ≡ 0
      → pool.in_work ≡ 0
      → (pool.tasks ≡ []) × (wait_ends pool ≡ true)
  unfolding wait_ends
  idle_ends pool none_queued none_busy =
      elim pool.tasks
          as (λ ts.
            length ts ≡ 0
            → (ts ≡ []) × (elim ts [ [] ↦ pool.in_work == 0 | t ∷ ts' ↦ false ] ≡ true)) [
              | [] ↦ λ h. (refl, ground arith)
              | t ∷ ts ↦ λ h. absurd (omega (arith, h))
            ]
        none_queued

  -- When no thread of a pool of `0 < n < 2^8` threads that is not stopped can move, and one thread at
  -- most calls `ccpool_wait`, any number of times: the queue is empty, no worker is busy, every task
  -- that was submitted has finished, once, and the caller is back from `ccpool_wait`.
  pub rest-IsSettled :
      (n : ℕ) {r : Room T}
      → 0 < n
      → n < byte_mod
      → Visits (open_room n) r
      → r.pool.stop ≡ false
      → length r.clients ≤ 1
      → ((u : Room T) → Move r u → ⊥)
      → IsSettled r
  rest-IsSettled n {r} some few v live single rest = elim (find-Move r) [
    | inl (u, m) ↦ absurd (rest u m)
    | inr (none_active, none_checks) ↦ still none_active none_checks
  ]
    where
      still : weigh is_active r.threads ≡ 0 → weigh checks r.clients ≡ 0 → IsSettled r
      still none_active none_checks =
          let is = Visits-IsServed n v in
          let none_busy : weigh is_busy r.threads ≡ 0 =
            omega (arith, is_busy-le r.threads, none_active) in
          let none_queued : length r.pool.tasks ≡ 0 =
            not_positive (length r.pool.tasks)
              (λ task. omega (arith, is.served live some task, none_active)) in
          let (empty, ends) =
            idle_ends r.pool none_queued (omega (arith, in_work-busy n v, none_busy)) in
          record {
            empty = empty;
            idle = none_busy;
            done = wait_finished n few (forget-Reach n v) live ends;
            back = omega (
              arith,
              none_checks,
              not_positive (weigh waits r.clients) (λ sleeper.
                  omega (arith, is.tended live few single sleeper, none_queued, none_busy)),
            );
          }
