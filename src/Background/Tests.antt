-- ===== src/Background/Tests.antt =====
-- One item that was scheduled.
use tiny_leveldb.Prelude.{ℕ, refl, [], ◌∷◌, Bool, ◌==◌}
use tiny_leveldb.Background.{
  Env, new_env, Schedules, pushes, Background, Reaches, fresh, scheduled_one,
}
use tiny_leveldb.Background.Order.{Ordered, Reaches-Ordered}

-- Item 8 calls Schedule.
abbrev eight : ℕ → Bool
eight x = x == 8

abbrev one_item : Env
one_item = record (new_env 0) { bg_queue = 7 ∷ []; semaphore = 1; callers = 1; scheduled = 7 ∷ [] }

pushed_seven : Schedules (new_env 0) one_item
pushed_seven = pushes 7 refl

one_item-Reaches : Reaches eight one_item
one_item-Reaches = scheduled_one fresh pushed_seven

Reaches-Ordered_example : Ordered one_item
Reaches-Ordered_example = Reaches-Ordered eight one_item one_item-Reaches
