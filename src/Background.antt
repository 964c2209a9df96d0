-- ===== src/Background.antt =====
-- db/env.h: the background queue, Schedule and BackgroundThreadMain. Each part of the two functions
-- between which another thread can run is one step on the shared state. A work item is a number that
-- stands for its function with its argument. The constructor of std::thread is taken to succeed.
pub mod Order
pub mod Progress
mod Tests
use tiny_leveldb.Prelude.{
  ℕ, zero, suc, ◌+◌, ◌≡◌, List, [], ◌∷◌, ◌++◌, Option, none, some, Bool, true, false,
}

-- The members of `env`, and where the threads stand: the callers of Schedule behind its block, those
-- that found the flag false and those that set it, the background threads at `sem_wait` and those behind
-- it, and the item that runs while its thread holds the mutex. `scheduled` and `done` are the items so far, in order.
pub record Env : Type 0 where
  pub bg_queue : List ℕ
  pub semaphore : ℕ
  pub is_background_thread_started : Bool
  pub callers : ℕ
  pub launching : ℕ
  pub starting : ℕ
  pub waiting : ℕ
  pub woken : ℕ
  pub running : Option ℕ
  pub scheduled : List ℕ
  pub done : List ℕ

-- A new `env`. Nothing in the source initialises the semaphore, so its first value is an argument.
abbrev pub new_env : ℕ → Env
new_env value = record {
  bg_queue = [];
  semaphore = value;
  is_background_thread_started = false;
  callers = 0;
  launching = 0;
  starting = 0;
  waiting = 0;
  woken = 0;
  running = none;
  scheduled = [];
  done = [];
}

-- The block of `Schedule`; the mutex is free.
pub data Schedules (e : Env) : Env → Type 0 where
  pushes :
      (item : ℕ)
      → e.running ≡ none
      → Schedules e (record e {
        bg_queue = e.bg_queue ++ (item ∷ []);
        semaphore = e.semaphore + 1;
        callers = e.callers + 1;
        scheduled = e.scheduled ++ (item ∷ []);
      })

-- A caller behind that block reads the flag; one that found it false sets it; one that set it begins a
-- background thread; in a background thread sem_wait returns; it takes the mutex and the front of the
-- queue; the item's function returns and the mutex is given back. The mutex is held while the function
-- runs, so a function that calls Schedule, as `reschedules` says of an item, waits for the mutex that its
-- own thread holds and does not return.
pub data Background (reschedules : ℕ → Bool) (e : Env) : Env → Type 0 where
  returns :
      (n : ℕ)
      → e.callers ≡ suc n
      → e.is_background_thread_started ≡ true
      → Background reschedules e (record e { callers = n })
  finds_none :
      (n : ℕ)
      → e.callers ≡ suc n
      → e.is_background_thread_started ≡ false
      → Background reschedules e (record e { callers = n; launching = e.launching + 1 })
  sets_flag :
      (n : ℕ)
      → e.launching ≡ suc n
      → Background reschedules e (record e {
        launching = n;
        is_background_thread_started = true;
        starting = e.starting + 1;
      })
  launches :
      (n : ℕ)
      → e.starting ≡ suc n
      → Background reschedules e (record e { starting = n; waiting = e.waiting + 1 })
  wakes :
      (n s : ℕ)
      → e.waiting ≡ suc n
      → e.semaphore ≡ suc s
      → Background reschedules e (record e { waiting = n; semaphore = s; woken = e.woken + 1 })
  takes :
      (n x : ℕ) (q : List ℕ)
      → e.woken ≡ suc n
      → e.running ≡ none
      → e.bg_queue ≡ x ∷ q
      → Background reschedules e (record e { woken = n; running = some x; bg_queue = q })
  finishes :
      (x : ℕ)
      → e.running ≡ some x
      → reschedules x ≡ false
      → Background reschedules e
          (record e { running = none; waiting = e.waiting + 1; done = e.done ++ (x ∷ []) })

-- What the threads make of a new `env` whose semaphore starts at 0, in any order of their steps.
pub data Reaches (reschedules : ℕ → Bool) : Env → Type 0 where
  fresh : Reaches reschedules (new_env 0)
  scheduled_one : {e f : Env} → Reaches reschedules e → Schedules e f → Reaches reschedules f
  moved : {e f : Env} → Reaches reschedules e → Background reschedules e f → Reaches reschedules f
