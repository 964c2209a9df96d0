-- ===== src/Background/Progress.antt =====
-- db/env.h: whether some thread can go on.
use tiny_leveldb.Prelude.{ℕ, ◌≡◌, Option, none, some, Bool, false}
use tiny_leveldb.Background.{Background}

-- The item that runs, where there is one, does not call Schedule.
abbrev pub Returning : (ℕ → Bool) → Option ℕ → Type 0
Returning reschedules none = Unit
Returning reschedules (some x) = reschedules x ≡ false
