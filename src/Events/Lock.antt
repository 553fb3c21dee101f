-- ===== src/Events/Lock.antt =====
-- `asyncio.Lock`, which is not reentrant: a task that waits for a lock which it holds itself waits
-- for ever, and the lock is never released.
use multi_ai_agent.Prelude.{Bool, true, false}

-- What comes of an awaited operation on a state: it ends with an answer, or it never ends.
pub data Awaited (S A : Type 0) : Type 0 where
  done : S → A → Awaited S A
  stuck : S → Awaited S A

-- `async with lock:` in a task that holds no lock; `held` is whether another holds it for ever
abbrev pub with_lock : {S A : Type 0} → Bool → S → Awaited S A → Awaited S A
with_lock true s body = stuck s
with_lock false s body = body

-- `await` the one, then the other on the state it leaves
abbrev pub and_then : {S A B : Type 0} → Awaited S A → (S → Awaited S B) → Awaited S B
and_then (done s a) next = next s
and_then (stuck s) next = stuck s
