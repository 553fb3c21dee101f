-- ===== src/Resilience/BulkheadPool.antt =====
-- The bulkhead of libs/resilience/tool_adapter_base.py. Its `asyncio.Semaphore` is a number of free
-- slots, a number of tasks that wait for one, and a number of tasks that were woken and have not run
-- since: a woken task has taken its slot from the semaphore, and a newcomer waits behind it. The lock
-- around the counter is never held across an `await`, so that nobody waits for it.
use multi_ai_agent.Prelude.{
  ℕ, ◌+◌, ◌-◌, ◌≤◌, ◌<◌, ◌≡◌, Bool, ◌&&◌, ◌==◌, arith, ltb, ◌⊎◌, if◌then◌else◌,
}

pub record BulkheadPool : Type 0 where
  pub max_concurrent : ℕ
  pub semaphore : ℕ
  pub waiting : ℕ
  pub woken : ℕ
  pub current_usage : ℕ

unfoldable pub init : ℕ → BulkheadPool
init max_concurrent = record {
  max_concurrent = max_concurrent;
  semaphore = max_concurrent;
  waiting = 0;
  woken = 0;
  current_usage = 0;
}

-- whether the semaphore gives a slot at once
abbrev pub is_free : BulkheadPool → Bool
is_free p = ltb 0 p.semaphore && (p.waiting + p.woken == 0)

-- `acquire` until it has the slot, or waits for one
unfoldable pub acquire : BulkheadPool → BulkheadPool
acquire p =
    if is_free p
    then record p { semaphore = p.semaphore - 1; current_usage = p.current_usage + 1 }
    else record p { waiting = p.waiting + 1 }

-- The semaphore hands a slot to the first task that waits.
unfoldable pub wake_up_next : BulkheadPool → BulkheadPool
wake_up_next p =
    if ltb 0 p.waiting
    then record p { semaphore = p.semaphore - 1; waiting = p.waiting - 1; woken = p.woken + 1 }
    else p

-- the rest of `acquire` in a task that was woken
unfoldable pub resume : BulkheadPool → BulkheadPool
resume p =
    let p' = record p { woken = p.woken - 1; current_usage = p.current_usage + 1 } in
    if ltb 0 p'.semaphore then wake_up_next p' else p'

-- A task that waits is cancelled by the timeout.
unfoldable pub give_up : BulkheadPool → BulkheadPool
give_up p = record p { waiting = p.waiting - 1 }

-- A task that was woken is cancelled by the timeout before it runs, and gives its slot back.
unfoldable pub give_back : BulkheadPool → BulkheadPool
give_back p = wake_up_next (record p { semaphore = p.semaphore + 1; woken = p.woken - 1 })

unfoldable pub release : BulkheadPool → BulkheadPool
release p =
    wake_up_next (record p { current_usage = p.current_usage - 1; semaphore = p.semaphore + 1 })

unfoldable pub available_slots : BulkheadPool → ℕ
available_slots p = p.max_concurrent - p.current_usage

pub data Step (p : BulkheadPool) : BulkheadPool → Type 0 where
  arrive : Step p (acquire p)
  enter : 0 < p.woken → Step p (resume p)
  expire : 0 < p.waiting → Step p (give_up p)
  expire_woken : 0 < p.woken → Step p (give_back p)
  leave : 0 < p.current_usage → Step p (release p)

pub data Reach (p : BulkheadPool) : BulkheadPool → Type 0 where
  here : Reach p p
  next : {q r : BulkheadPool} → Reach p q → Step q r → Reach p r

pub record Inv (max_concurrent : ℕ) (p : BulkheadPool) : Type 0 where
  pub same_max : p.max_concurrent ≡ max_concurrent
  pub slots : p.semaphore + p.woken + p.current_usage ≡ max_concurrent
  pub queued : 0 < p.waiting → (p.semaphore ≡ 0) ⊎ (0 < p.woken)

Step-Inv : (n : ℕ) {p q : BulkheadPool} → Step p q → Inv n p → Inv n q
unfolding acquire resume give_up give_back release wake_up_next
Step-Inv n arrive v = ground arith
Step-Inv n (enter h) v = ground arith
Step-Inv n (expire h) v = ground arith
Step-Inv n (expire_woken h) v = ground arith
Step-Inv n (leave h) v = ground arith

Reach-Inv : (n : ℕ) {p : BulkheadPool} → Reach (init n) p → Inv n p
unfolding init
Reach-Inv n here = ground arith
Reach-Inv n (next r st) = Step-Inv n st (Reach-Inv n r)

-- However tasks arrive, are woken, give up and leave, those inside are never more than the maximum;
-- the slots reported as available are those free in the semaphore and those handed to woken tasks;
-- and a task waits only while all slots are taken or while a woken task has yet to run.
pub init-Reach-slots :
    (n : ℕ) (p : BulkheadPool)
    → Reach (init n) p
    → (p.current_usage ≤ n)
      × (available_slots p ≡ p.semaphore + p.woken)
      × ((p.waiting ≡ 0) ⊎ (p.current_usage ≡ n) ⊎ (0 < p.woken))
unfolding available_slots
init-Reach-slots n p r =
    let v = Reach-Inv n r in
    (omega (arith, v.slots), omega (arith, v.slots, v.same_max), ground (arith, v.queued, v.slots))
