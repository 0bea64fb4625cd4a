-- ===== src/ThreadPool/Signals/Refinement.antt =====
-- src/tpool.c: runs with sleeping threads, compared with runs of the system of ThreadPool.
use mathlib.Core.List.{map-append}
use mathlib.Core.Path.{subst}
use ccore.Base.{
  ℕ, zero, suc, ◌≡◌, refl, sym, ap, ◌∙◌, ◌⊎◌, inl, inr, List, [], ◌∷◌, ◌++◌, map, replicate,
}
use ccore.ThreadPool.{
  Worker, at_head, running, exited, System, create, worker_head, head_step, tail_step, submit, stop,
  Step, Reach,
}
use ccore.ThreadPool.Signals.{
  Thread, awake, asleep, busy, gone, Client, Room, Signal, one, nobody, sleeps, rouse, thread_of,
  open_room, head_room, tail_room, check_room, submit_room, stop_room, head, tail, check, Event,
  moved, submitting, arriving, stopping, worker_woken, client_woken, calling_again, Visits, here,
  next,
}

module _ {T : Type 0} where
  abbrev pub worker_of : Thread T → Worker T
  worker_of awake = at_head
  worker_of asleep = at_head
  worker_of (busy task) = running task
  worker_of gone = exited

  abbrev pub forget : Room T → System T
  forget r = record {
    pool = r.pool;
    workers = map worker_of r.threads;
    submitted = r.submitted;
    started = r.started;
    finished = r.finished;
    dropped = r.dropped;
  }

  split :
      (r : Room T) (before : List (Thread T)) (w : Thread T) (after : List (Thread T))
      → r.threads ≡ before ++ w ∷ after
      → map worker_of r.threads ≡ map worker_of before ++ worker_of w ∷ map worker_of after
  split r before w after at = ap (map worker_of) at ∙ map-append worker_of before (w ∷ after)

  worker_of-thread_of : (w : Worker T) → worker_of (thread_of w) ≡ w
  worker_of-thread_of at_head = refl
  worker_of-thread_of (running task) = refl
  worker_of-thread_of exited = refl

  map-rouse : (ws : List (Thread T)) → map worker_of (map rouse ws) ≡ map worker_of ws
  map-rouse [] = refl
  map-rouse (awake ∷ ws) = ap (λ l. at_head ∷ l) (map-rouse ws)
  map-rouse (asleep ∷ ws) = ap (λ l. at_head ∷ l) (map-rouse ws)
  map-rouse (busy task ∷ ws) = ap (λ l. running task ∷ l) (map-rouse ws)
  map-rouse (gone ∷ ws) = ap (λ l. exited ∷ l) (map-rouse ws)

  replace-awake :
      (before : List (Thread T)) (w : Thread T) (after : List (Thread T))
      → sleeps w ≡ 1
      → map worker_of (before ++ awake ∷ after) ≡ map worker_of (before ++ w ∷ after)
  replace-awake before awake after h = cc
  replace-awake before (busy task) after h = cc
  replace-awake before gone after h = cc
  replace-awake before asleep after h =
      map-append worker_of before (awake ∷ after)
      ∙ sym (map-append worker_of before (asleep ∷ after))

  Signal-forget :
      {xs ys : List (Thread T)} → Signal sleeps awake xs ys → map worker_of ys ≡ map worker_of xs
  Signal-forget (one before w after slept from to) =
      ap (map worker_of) to ∙ replace-awake before w after slept ∙ sym (ap (map worker_of) from)
  Signal-forget (nobody none_sleeps same) = ap (map worker_of) same

  with_workers : System T → List (Worker T) → System T
  with_workers s ws = record s { workers = ws }

  forget-head_room :
      (r : Room T) (before after : List (Thread T))
      → forget (head_room r before after)
        ≡ head_step (forget r) (map worker_of before) (map worker_of after)
  unfolding head_room head_step with_workers
  forget-head_room r before after =
      let (pool, (worker, taken)) = worker_head r.pool in
      ap
        (with_workers (record {
          pool = pool;
          workers = [];
          submitted = r.submitted;
          started = r.started ++ taken;
          finished = r.finished;
          dropped = r.dropped;
        }))
        (map-append worker_of before (thread_of worker ∷ after)
          ∙ ap (λ w. map worker_of before ++ w ∷ map worker_of after) (worker_of-thread_of worker))

  forget-tail_room :
      (r : Room T) (before : List (Thread T)) (task : T) (after : List (Thread T))
      (clients : List Client)
      → forget (tail_room r before task after clients)
        ≡ tail_step (forget r) (map worker_of before) task (map worker_of after)
  unfolding tail_room tail_step with_workers
  forget-tail_room r before task after clients =
      ap (with_workers (tail_step (forget r) [] task []))
        (map-append worker_of before (awake ∷ after))

  -- Every event is a step of the system or changes nothing that the system has.
  Event-Step : {r u : Room T} → Event r u → (forget u ≡ forget r) ⊎ Step (forget r) (forget u)
  unfolding submit_room submit stop_room stop check_room with_workers
  Event-Step {r} (moved (head before after at e)) = inr (
      Step.head (map worker_of before) (map worker_of after) (split r before awake after at)
        (ap forget e ∙ forget-head_room r before after))
  Event-Step {r} (moved (tail before task after clients at signal e)) = inr (
      Step.tail (map worker_of before) task (map worker_of after)
        (split r before (busy task) after at)
        (ap forget e ∙ forget-tail_room r before task after clients))
  Event-Step (moved (check before after at e)) = inl (ap forget e)
  Event-Step {r} (submitting task threads signal e) = inr (
      Step.submitting task
        (ap forget e ∙ ap (with_workers (submit (forget r) task)) (Signal-forget signal)))
  Event-Step (arriving e) = inl (ap forget e)
  Event-Step {r} (stopping e) =
      inr (Step.stopping (ap forget e ∙ ap (with_workers (stop (forget r))) (map-rouse r.threads)))
  Event-Step {r} (worker_woken before after at e) = inl (
      ap forget e
      ∙ ap (with_workers (forget r))
          (replace-awake before asleep after refl ∙ sym (ap (map worker_of) at)))
  Event-Step (calling_again before after at e) = inl (ap forget e)
  Event-Step (client_woken before after at e) = inl (ap forget e)

  worker_of-replicate :
      (n : ℕ) → map worker_of (replicate {A = Thread T} n awake) ≡ replicate n at_head
  worker_of-replicate zero = refl
  worker_of-replicate (suc n) = ap (λ l. at_head ∷ l) (worker_of-replicate n)

  forget-open_room : (n : ℕ) → forget (open_room n) ≡ create n
  unfolding open_room create with_workers
  forget-open_room n = ap (with_workers (create n)) (worker_of-replicate n)

  -- Without the sleep of its threads, a run of a pool is a run of the system of ThreadPool.
  pub forget-Reach : (n : ℕ) {r : Room T} → Visits (open_room n) r → Reach (create n) (forget r)
  forget-Reach n here = subst (Reach (create n)) (sym (forget-open_room n)) Reach.here
  forget-Reach n (next {t} {u} v e) = elim (Event-Step e) [
    | inl same ↦ subst (Reach (create n)) (sym same) (forget-Reach n v)
    | inr step ↦ Reach.next (forget-Reach n v) step
  ]
