-- ===== src/Background/Order.antt =====
-- db/env.h: what the threads have run, run and have yet to run.
use tiny_leveldb.Prelude.{
  ℕ, ◌+◌, ◌<◌, ◌≡◌, ◌⊎◌, refl, ◌∙◌, ap, ap₂, sym, arith, List, [], ◌∷◌, ◌++◌, append_assoc, Option,
  none, some, Bool, true, false, length, length-append, inl, inr,
}
use tiny_leveldb.Background.{
  Env, Schedules, pushes, Background, returns, finds_none, sets_flag, launches, wakes, takes,
  finishes, Reaches, fresh, scheduled_one, moved,
}

-- The item that runs, as a list.
abbrev pub current : Option ℕ → List ℕ
current none = []
current (some x) = x ∷ []

-- The semaphore and the threads that passed it count the queue; done, running and waiting items are those
-- that were scheduled; once the flag is set, a background
-- thread is there or the caller that set it is about to begin it; once something was scheduled, the flag
-- is set or a caller has yet to read or set it.
pub record Ordered (e : Env) : Type 0 where
  pub counted : e.semaphore + e.woken ≡ length e.bg_queue
  pub in_order : e.scheduled ≡ e.done ++ (current e.running ++ e.bg_queue)
  pub present :
      (e.is_background_thread_started ≡ false)
      ⊎ (0 < e.starting + e.waiting + e.woken + length (current e.running))
  pub staffed :
      (e.is_background_thread_started ≡ true) ⊎ ((e.scheduled ≡ []) ⊎ (0 < e.callers + e.launching))

Schedules-Ordered : {e f : Env} → Schedules e f → Ordered e → Ordered f
Schedules-Ordered {e} (pushes item free) o = record {
  counted = omega (arith, o.counted, length-append {0} e.bg_queue (item ∷ []));
  in_order =
      ap (λ s. s ++ (item ∷ [])) o.in_order
      ∙ append_assoc e.done (current e.running ++ e.bg_queue) (item ∷ [])
      ∙ ap (λ s. e.done ++ s) (append_assoc (current e.running) e.bg_queue (item ∷ []));
  present = o.present;
  staffed = inr (inr (omega arith));
}

Background-Ordered :
    {reschedules : ℕ → Bool} {e f : Env} → Background reschedules e f → Ordered e → Ordered f
Background-Ordered {e = e} (returns n c on) o = record {
  counted = o.counted;
  in_order = o.in_order;
  present = o.present;
  staffed = inl on;
}
Background-Ordered {e = e} (finds_none n c off) o = record {
  counted = o.counted;
  in_order = o.in_order;
  present = o.present;
  staffed = inr (inr (omega arith));
}
Background-Ordered {e = e} (sets_flag n c) o = record {
  counted = o.counted;
  in_order = o.in_order;
  present = inr (omega arith);
  staffed = inl refl;
}
Background-Ordered {e = e} (launches n c) o = record {
  counted = o.counted;
  in_order = o.in_order;
  present = inr (omega arith);
  staffed = o.staffed;
}
Background-Ordered {e = e} (wakes n s w p) o = record {
  counted = omega (arith, o.counted);
  in_order = o.in_order;
  present = inr (omega arith);
  staffed = o.staffed;
}
Background-Ordered {e = e} (takes n x q w free at) o = record {
  counted = omega (arith, o.counted, ap length at);
  in_order = o.in_order ∙ ap₂ (λ r l. e.done ++ (current r ++ l)) free at;
  present = inr (omega arith);
  staffed = o.staffed;
}
Background-Ordered {e = e} (finishes x run ends) o = record {
  counted = o.counted;
  in_order =
      o.in_order
      ∙ ap (λ r. e.done ++ (current r ++ e.bg_queue)) run
      ∙ sym (append_assoc e.done (x ∷ []) e.bg_queue);
  present = inr (omega arith);
  staffed = o.staffed;
}

-- In every order of the threads' steps the items that are done, the one that runs and those in the queue
-- are the scheduled ones, each once and in their order, and a thread that passed the semaphore finds an
-- item: the semaphore and these threads together count the queue. Once the flag is set, a background
-- thread is there, or a caller that set the flag has yet to begin it; once something was scheduled, the
-- flag is set or a caller has yet to read or to set it. The semaphore is taken to start at 0 and the
-- constructor of std::thread to succeed.
pub Reaches-Ordered : (reschedules : ℕ → Bool) (e : Env) → Reaches reschedules e → Ordered e
Reaches-Ordered _ _ fresh = record {
  counted = refl;
  in_order = refl;
  present = inl refl;
  staffed = inr (inl refl);
}
Reaches-Ordered p _ (scheduled_one {e} r s) = Schedules-Ordered s (Reaches-Ordered p e r)
Reaches-Ordered p _ (moved {e} r b) = Background-Ordered b (Reaches-Ordered p e r)
