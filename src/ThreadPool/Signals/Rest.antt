-- ===== src/ThreadPool/Signals/Rest.antt =====
-- How far the threads of a pool can move by themselves: to a rest, in a bounded number of moves.
use mathlib.Core.Path.{subst}
use ccore.Base.{
  ℕ, zero, suc, ◌+◌, ◌*◌, ◌<◌, ◌≤◌, ◌≡◌, refl, sym, ap, ◌∙◌, inl, inr, Bool, true, false, List, [],
  ◌∷◌, if◌then◌else◌, length, length-append, arith, weigh, weigh-append,
}
use ccore.ThreadPool.{byte_mod, worker_head, worker_tail, wait_ends}
use ccore.ThreadPool.Signals.{
  Thread, awake, asleep, busy, gone, Client, checking, waiting, returned, Room, Signal, one, nobody,
  waits, checks, thread_of, is_active, open_room, head_room, tail_room, check_room, Move, head,
  tail, check, moved, Visits, next,
}
use ccore.ThreadPool.Signals.Progress.{find-Move, IsSettled, rest-IsSettled}

signal_down :
    {xs ys : List Client}
    → Signal waits checking xs ys
    → (weigh checks ys ≤ weigh checks xs + 1) × (length ys ≡ length xs)
signal_down (one before w after slept from to) = (
  omega (
    arith,
    ap (weigh checks) to,
    ap (weigh checks) from,
    weigh-append checks before checking after,
    weigh-append checks before w after,
  ),
  omega (
    arith,
    ap length to,
    ap length from,
    length-append before (checking ∷ after),
    length-append before (w ∷ after),
  ),
)
signal_down (nobody none_waits same) = (omega (arith, ap (weigh checks) same), ap length same)

checked : (b : Bool) → checks (if b then returned else waiting) ≡ 0
checked true = refl
checked false = refl

module _ {T : Type 0} where
  -- The moves that a thread has ahead of it, the wake-up by its signal included.
  abbrev pub ahead : Thread T → ℕ
  ahead awake = 1
  ahead asleep = 0
  ahead (busy task) = 3
  ahead gone = 0

  abbrev pub effort : Room T → ℕ
  effort r = 4 * length r.pool.tasks + weigh ahead r.threads + weigh checks r.clients

  pub data Moves (r : Room T) : ℕ → Room T → Type 0 where
    still : Moves r 0 r
    more : {k : ℕ} {t u : Room T} → Moves r k t → Move t u → Moves r (suc k) u

  -- What a move leaves as it is, and what it takes off the effort.
  record IsLess (r u : Room T) : Type 0 where
    down : effort u < effort r
    stop_eq : u.pool.stop ≡ r.pool.stop
    clients_eq : length u.clients ≡ length r.clients
    submitted_eq : u.submitted ≡ r.submitted

  head_down :
      (tasks : List T) (b : Bool) (w c : ℕ)
      → let out = worker_head (record { tasks = tasks; stop = b; in_work = w; thread_count = c }) in
        (4 * length out.0.tasks + ahead (thread_of out.1.0) < 4 * length tasks + 1)
        × (out.0.stop ≡ b)
  unfolding worker_head
  head_down tasks true w c = (omega arith, refl)
  head_down [] false w c = (omega arith, refl)
  head_down (t ∷ ts) false w c = (omega arith, refl)

  Move-IsLess : {r u : Room T} → Move r u → IsLess r u
  unfolding head_room tail_room check_room worker_tail
  Move-IsLess {r} {u} (head before after at e) =
      let pool = r.pool in
      let out = worker_head pool in
      let (less, same_stop) = head_down pool.tasks pool.stop pool.in_work pool.thread_count in
      subst (IsLess r) (sym e) (record {
        down = omega (
          arith,
          less,
          ap (weigh ahead) at,
          weigh-append ahead before awake after,
          weigh-append ahead before (thread_of out.1.0) after,
        );
        stop_eq = same_stop;
        clients_eq = refl;
        submitted_eq = refl;
      })
  Move-IsLess {r} {u} (tail before task after clients at signal e) =
      let (less, same_length) = signal_down signal in
      subst (IsLess r) (sym e) (record {
        down = omega (
          arith,
          less,
          ap (weigh ahead) at,
          weigh-append ahead before (busy task) after,
          weigh-append ahead before awake after,
        );
        stop_eq = refl;
        clients_eq = same_length;
        submitted_eq = refl;
      })
  Move-IsLess {r} {u} (check before after at e) =
      let c = if wait_ends r.pool then returned else waiting in
      subst (IsLess r) (sym e) (record {
        down = omega (
          arith,
          checked (wait_ends r.pool),
          ap (weigh checks) at,
          weigh-append checks before checking after,
          weigh-append checks before c after,
        );
        stop_eq = refl;
        clients_eq = omega (
          arith,
          ap length at,
          length-append before (checking ∷ after),
          length-append before (c ∷ after),
        );
        submitted_eq = refl;
      })

  -- With no new call and no wake-up without a signal, the threads of a room make a bounded number of
  -- moves: four for each task in the queue, three for each that is in progress, one for each worker
  -- that is awake and one for each caller that is about to test its condition, at most.
  pub Moves-le_effort : {r u : Room T} {k : ℕ} → Moves r k u → k + effort u ≤ effort r
  Moves-le_effort still = omega arith
  Moves-le_effort (more ms m) = omega (arith, Moves-le_effort ms, (Move-IsLess m).down)

  -- Where no thread is active and no caller tests its condition, nothing moves.
  pub no-Move :
      {r : Room T}
      → (weigh is_active r.threads ≡ 0) × (weigh checks r.clients ≡ 0)
      → (u : Room T) → Move r u
      → ⊥
  no-Move (none_active, none_checks) u (head before after at e) =
      omega (arith, none_active, ap (weigh is_active) at, weigh-append is_active before awake after)
  no-Move (none_active, none_checks) u (tail before task after clients at signal e) =
      omega (
        arith,
        none_active,
        ap (weigh is_active) at,
        weigh-append is_active before (busy task) after,
      )
  no-Move (none_active, none_checks) u (check before after at e) =
      omega (arith, none_checks, ap (weigh checks) at, weigh-append checks before checking after)

  -- The threads move until none can.
  run_to_rest :
      (fuel : ℕ) {r t : Room T} {j : ℕ}
      → effort t < fuel
      → Moves r j t
      → (k : ℕ) × (u : Room T) × Moves r k u × ((v : Room T) → Move u v → ⊥)
  run_to_rest zero h ms = absurd (omega (arith, h))
  run_to_rest (suc fuel) {r} {t} {j} h ms = elim (find-Move t) [
    | inl (u, m) ↦ run_to_rest fuel (omega (arith, h, (Move-IsLess m).down)) (more ms m)
    | inr at_rest ↦ (j, t, ms, no-Move at_rest)
  ]

  Visits-Moves : {s r u : Room T} {k : ℕ} → Visits s r → Moves r k u → Visits s u
  Visits-Moves v still = v
  Visits-Moves v (more ms m) = next (Visits-Moves v ms) (moved m)

  Moves-kept :
      {r u : Room T} {k : ℕ}
      → Moves r k u
      → (u.pool.stop ≡ r.pool.stop)
        × (length u.clients ≡ length r.clients)
        × (u.submitted ≡ r.submitted)
  Moves-kept still = (refl, refl, refl)
  Moves-kept (more ms m) =
      let is = Move-IsLess m in
      let (same_stop, same_clients, same_submitted) = Moves-kept ms in
      (is.stop_eq ∙ same_stop, is.clients_eq ∙ same_clients, is.submitted_eq ∙ same_submitted)

  -- From whatever a pool of `0 < n < 2^8` threads that is not stopped has come to, where one thread at
  -- most calls `ccpool_wait`, the threads alone can move to a room in which every task that had been
  -- submitted has finished, once, the queue is empty, no worker is busy, and the caller is back.
  pub settles :
      (n : ℕ) {r : Room T}
      → 0 < n
      → n < byte_mod
      → Visits (open_room n) r
      → r.pool.stop ≡ false
      → length r.clients ≤ 1
      → (k : ℕ) × (u : Room T) × Moves r k u × IsSettled u × (u.submitted ≡ r.submitted)
  settles n {r} some few v live single =
      let start : Moves r 0 r = still in
      let (k, u, ms, rest) = run_to_rest (suc (effort r)) (omega arith) start in
      let (same_stop, same_clients, same_submitted) = Moves-kept ms in
      (
        k,
        u,
        ms,
        rest-IsSettled n some few (Visits-Moves v ms) (same_stop ∙ live)
            (omega (arith, same_clients, single)) rest,
        same_submitted,
      )
