-- ===== src/ThreadPool/Signals/Kept.antt =====
-- src/tpool.c: each event, and what a room keeps up.
use ccore.Base.{
  ℕ, ◌+◌, ◌%◌, ◌<◌, ◌≤◌, ◌≡◌, refl, sym, ap, ◌∙◌, ◌⊎◌, inl, inr, false, List, [], ◌∷◌, ◌++◌, length,
  length-append, arith, weigh, weigh-append,
}
use ccore.ThreadPool.{byte_mod, worker_head, worker_tail, wait_ends}
use ccore.ThreadPool.Signals.{
  Thread, awake, asleep, busy, gone, Client, checking, Room, Signal, one, nobody, waits, sleeps,
  is_active, is_busy, thread_of, head_room, tail_room, check_room, submit_room, stop_room,
}
use ccore.ThreadPool.Signals.Served.{
  IsServed, worker_head-IsTurn, not_alone, goes_on, wait_ends-in_work,
}

module _ {T : Type 0} where
  module _ {n : ℕ} (r : Room T) (is : IsServed n r) where
    -- How the sums change where one thread changes.
    at_split :
        (w : Thread T → ℕ) (before : List (Thread T)) (x : Thread T) (after : List (Thread T))
        → r.threads ≡ before ++ x ∷ after
        → weigh w r.threads ≡ weigh w before + w x + weigh w after
    at_split w before x after at = ap (weigh w) at ∙ weigh-append w before x after

    pub head-IsServed :
        (before after : List (Thread T))
        → r.threads ≡ before ++ awake ∷ after
        → IsServed n (head_room r before after)
    unfolding head_room
    head-IsServed before after at =
        let out = worker_head r.pool in
        let turn = worker_head-IsTurn r.pool in
        let w' = thread_of out.1.0 in
        let live = λ (h : out.0.stop ≡ false). sym turn.stop_eq ∙ h in
        record {
          present = λ h. omega (
            arith,
            is.present (live h),
            turn.there (live h),
            at_split sleeps before awake after at,
            at_split is_active before awake after at,
            weigh-append sleeps before w' after,
            weigh-append is_active before w' after,
          );
          served = λ h some task. elim (turn.lively (live h)) [
            | inl lively ↦ omega (arith, lively, weigh-append is_active before w' after)
            | inr nothing ↦ absurd (omega (arith, nothing, task))
          ];
          tended = λ h few single sleeper. omega (
            arith,
            is.tended (live h) few single sleeper,
            turn.kept (live h),
            at_split is_busy before awake after at,
            weigh-append is_busy before w' after,
          );
        }

    pub tail-IsServed :
        (before : List (Thread T)) (task : T) (after : List (Thread T)) (clients : List Client)
        → r.threads ≡ before ++ busy task ∷ after
        → Signal waits checking r.clients clients
        → IsServed n (tail_room r before task after clients)
    unfolding tail_room worker_tail
    tail-IsServed before task after clients at signal = record {
      present = λ h. omega (
        arith,
        is.present h,
        at_split sleeps before (busy task) after at,
        at_split is_active before (busy task) after at,
        weigh-append sleeps before awake after,
        weigh-append is_active before awake after,
      );
      served = λ h some waiting_task. omega (arith, weigh-append is_active before awake after);
      tended = λ h few single sleeper. absurd (alone signal single sleeper);
    }
      where
        alone :
            {xs ys : List Client}
            → Signal waits checking xs ys
            → length ys ≤ 1
            → 0 < weigh waits ys
            → ⊥
        alone (one front w back slept from to) single sleeper =
            not_alone front checking back refl (rw to at single) (rw to at sleeper)
        alone (nobody nobody_waits same) single sleeper =
            omega (arith, ap (weigh waits) same, nobody_waits, sleeper)

    pub stop-IsServed : IsServed n (stop_room r)
    unfolding stop_room
    stop-IsServed = record {
      present = λ h. cc;
      served = λ h some task. cc;
      tended = λ h few single sleeper. cc;
    }

    -- A signal changes nobody but the one that it wakes.
    signalled :
        {xs ys : List (Thread T)}
        → Signal sleeps awake xs ys
        → (weigh is_busy ys ≡ weigh is_busy xs)
          × (weigh sleeps ys + weigh is_active ys ≡ weigh sleeps xs + weigh is_active xs)
          × ((0 < weigh is_active ys) ⊎ (weigh sleeps ys ≡ 0))
    signalled (one before asleep after slept from to) =
        let v = λ (w : Thread T → ℕ). ap (weigh w) to ∙ weigh-append w before awake after in
        let u = λ (w : Thread T → ℕ). ap (weigh w) from ∙ weigh-append w before asleep after in
        (
          omega (arith, u is_busy, v is_busy),
          omega (arith, u sleeps, v sleeps, u is_active, v is_active),
          inl (omega (arith, v is_active)),
        )
    signalled (one before awake after slept from to) = absurd (omega (arith, slept))
    signalled (one before (busy task) after slept from to) = absurd (omega (arith, slept))
    signalled (one before gone after slept from to) = absurd (omega (arith, slept))
    signalled (nobody none_sleeps same) = (
      ap (weigh is_busy) same,
      omega (arith, ap (weigh sleeps) same, ap (weigh is_active) same),
      inr (ap (weigh sleeps) same ∙ none_sleeps),
    )

    pub submit-IsServed :
        (task : T) (threads : List (Thread T))
        → Signal sleeps awake r.threads threads
        → IsServed n (submit_room r task threads)
    unfolding submit_room
    submit-IsServed task threads signal =
        let (same_busy, same_sum, lively) = signalled signal in
        let longer = length-append r.pool.tasks (task ∷ []) in
        record {
          present = λ h. same_sum ∙ is.present h;
          served = λ h some waiting_task. elim lively [
            | inl active ↦ active
            | inr nobody_sleeps ↦ omega (arith, is.present h, same_sum, nobody_sleeps)
          ];
          tended = λ h few single sleeper.
              omega (arith, is.tended h few single sleeper, longer, same_busy);
        }

    pub worker_woken-IsServed :
        (before after : List (Thread T))
        → r.threads ≡ before ++ asleep ∷ after
        → IsServed n (record r { threads = before ++ awake ∷ after })
    worker_woken-IsServed before after at =
        let was = λ (w : Thread T → ℕ). at_split w before asleep after at in
        let now = λ (w : Thread T → ℕ). weigh-append w before awake after in
        record {
          present = λ h.
              omega (arith, is.present h, was sleeps, was is_active, now sleeps, now is_active);
          served = λ h some task. omega (arith, now is_active);
          tended = λ h few single sleeper.
              omega (arith, is.tended h few single sleeper, was is_busy, now is_busy);
        }

    pub arriving-IsServed : IsServed n (record r { clients = r.clients ++ checking ∷ [] })
    arriving-IsServed = record {
      present = is.present;
      served = is.served;
      tended = λ h few single sleeper.
          is.tended h few (omega (arith, length-append r.clients (checking ∷ []), single))
            (omega (arith, weigh-append waits r.clients checking [], sleeper));
    }

    pub client_woken-IsServed :
        (before after : List Client)
        → IsServed n (record r { clients = before ++ checking ∷ after })
    client_woken-IsServed before after = record {
      present = is.present;
      served = is.served;
      tended = λ h few single sleeper. absurd (not_alone before checking after refl single sleeper);
    }

    pub check-IsServed :
        r.pool.in_work ≡ weigh is_busy r.threads % byte_mod
        → (before after : List Client) → IsServed n (check_room r before after)
    unfolding check_room
    check-IsServed counted before after = record {
      present = is.present;
      served = is.served;
      tended = λ h few single sleeper.
          let held = goes_on (wait_ends r.pool) before after single sleeper in
          wait_ends-in_work r.pool (weigh is_busy r.threads) counted held;
    }
