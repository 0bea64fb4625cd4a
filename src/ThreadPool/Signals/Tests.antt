-- ===== src/ThreadPool/Signals/Tests.antt =====
-- Runs of a pool with one worker, whose tasks are numbers, and the theorems at such runs.
use ccore.Base.{ℕ, ◌+◌, ◌≤◌, ◌≡◌, refl, false, [], ◌∷◌, length, arith, weigh}
use ccore.ThreadPool.{worker_head, worker_tail, wait_ends}
use ccore.ThreadPool.Signals.{
  awake, asleep, checking, waiting, Room, one, waits, open_room, head_room, tail_room, check_room,
  submit_room, Move, head, tail, check, moved, submitting, arriving, Visits, here, next,
}
use ccore.ThreadPool.Signals.Invariant.{Visits-IsServed}
use ccore.ThreadPool.Signals.Served.{IsServed}
use ccore.ThreadPool.Signals.Progress.{IsSettled, rest-IsSettled}
use ccore.ThreadPool.Signals.Rest.{effort, Moves, still, more, Moves-le_effort, no-Move, settles}

-- The worker falls asleep, and task 7 wakes it up.
abbrev slept : Room ℕ
slept = head_room (open_room 1) [] []

abbrev given : Room ℕ
given = submit_room slept 7 (awake ∷ [])

given-Visits : Visits (open_room 1) given
unfolding open_room head_room submit_room worker_head
given-Visits =
    next (next here (moved (head [] [] refl refl)))
      (submitting 7 (awake ∷ []) (one [] asleep [] refl refl refl) refl)

-- Then two callers come to `ccpool_wait`.
abbrev called : Room ℕ
called = record given { clients = checking ∷ [] }

abbrev crowded : Room ℕ
crowded = record given { clients = checking ∷ checking ∷ [] }

called-Visits : Visits (open_room 1) called
unfolding open_room head_room submit_room worker_head
called-Visits = next given-Visits (arriving refl)

crowded-Visits : Visits (open_room 1) crowded
unfolding open_room head_room submit_room worker_head
crowded-Visits = next called-Visits (arriving refl)

-- The caller sleeps, the task is run, its end wakes the caller, and both threads come to rest.
abbrev asked : Room ℕ
asked = check_room called [] []

abbrev taken : Room ℕ
taken = head_room asked [] []

abbrev ran : Room ℕ
ran = tail_room taken [] 7 [] (checking ∷ [])

abbrev quiet : Room ℕ
quiet = head_room ran [] []

abbrev left : Room ℕ
left = check_room quiet [] []

taken-Moves : Moves called 2 taken
unfolding open_room head_room submit_room worker_head check_room wait_ends
taken-Moves = more (more still (check [] [] refl refl)) (head [] [] refl refl)

quiet-Visits : Visits (open_room 1) quiet
unfolding open_room head_room submit_room tail_room worker_head worker_tail check_room wait_ends
quiet-Visits =
    next
      (next
        (next (next called-Visits (moved (check [] [] refl refl))) (moved (head [] [] refl refl)))
        (moved (tail [] 7 [] (checking ∷ []) refl (one [] waiting [] refl refl refl) refl)))
      (moved (head [] [] refl refl))

left-Visits : Visits (open_room 1) left
unfolding open_room head_room submit_room tail_room worker_head worker_tail check_room wait_ends
left-Visits = next quiet-Visits (moved (check [] [] refl refl))

left_rest : (u : Room ℕ) → Move left u → ⊥
unfolding open_room head_room submit_room tail_room worker_head worker_tail check_room wait_ends
left_rest = no-Move (refl, refl)

left_live : left.pool.stop ≡ false
unfolding open_room head_room submit_room tail_room worker_head worker_tail check_room wait_ends
left_live = refl

left_single : length left.clients ≤ 1
unfolding open_room head_room submit_room tail_room worker_head worker_tail check_room wait_ends
left_single = omega arith

called_live : called.pool.stop ≡ false
unfolding open_room head_room submit_room worker_head
called_live = refl

-- With two callers asleep, the end of the last task wakes one, and the other sleeps on.
abbrev both : Room ℕ
both = check_room (check_room crowded [] (checking ∷ [])) (waiting ∷ []) []

abbrev forgotten : Room ℕ
forgotten =
    check_room
      (head_room (tail_room (head_room both [] []) [] 7 [] (checking ∷ waiting ∷ [])) [] []) []
      (waiting ∷ [])

forgotten-Visits : Visits (open_room 1) forgotten
unfolding open_room head_room submit_room tail_room worker_head worker_tail check_room wait_ends
forgotten-Visits =
    let asleep_both : Visits (open_room 1) both =
      next (next crowded-Visits (moved (check [] (checking ∷ []) refl refl)))
        (moved (check (waiting ∷ []) [] refl refl)) in
    next
      (next
        (next (next asleep_both (moved (head [] [] refl refl))) (
          moved (
            tail [] 7 [] (checking ∷ waiting ∷ []) refl
              (one [] waiting (waiting ∷ []) refl refl refl) refl)))
        (moved (head [] [] refl refl)))
      (moved (check [] (waiting ∷ []) refl refl))

forgotten_rest : (u : Room ℕ) → Move forgotten u → ⊥
unfolding open_room head_room submit_room tail_room worker_head worker_tail check_room wait_ends
forgotten_rest = no-Move (refl, refl)

forgotten_waits : ◌≡◌ {A = ℕ} (weigh waits forgotten.clients) 1
unfolding open_room head_room submit_room tail_room worker_head worker_tail check_room wait_ends
forgotten_waits = refl

Visits-IsServed_example : IsServed 1 called
Visits-IsServed_example = Visits-IsServed 1 called-Visits

Moves-le_effort_example : 2 + effort taken ≤ effort called
Moves-le_effort_example = Moves-le_effort taken-Moves

rest-IsSettled_example : IsSettled left
rest-IsSettled_example =
    rest-IsSettled 1 (omega arith) (omega arith) left-Visits left_live left_single left_rest

settles_example :
    (k : ℕ) × (u : Room ℕ) × Moves called k u × IsSettled u × (u.submitted ≡ called.submitted)
settles_example = settles 1 (omega arith) (omega arith) called-Visits called_live (omega arith)
