-- ===== src/Progress/Summary.antt =====
-- What the model shows when tasks are pushed and popped.
use pysubunit.Prelude.{
  ℕ, suc, zero, ◌≡◌, refl, Option, none, some, List, [], ◌∷◌, ◌++◌, length, arith,
}
use pysubunit.Prelude.Int.{ℤ, pos, negsuc, ◌+ℤ◌, ◌*ℤ◌}
use pysubunit.Progress.{
  Task, Model, push, pop, summary_pos, summary_width, advance, adjust_width, set_width, Op, do_push,
  do_pop, do_advance, do_adjust_width, do_set_width, apply_all,
}

one_step : (z : ℤ) → (z *ℤ pos 1) +ℤ pos 0 ≡ z
unfolding ◌*ℤ◌ ◌+ℤ◌
one_step (pos n) = ground arith
one_step (negsuc n) = ground arith

whole : (z : ℤ) → (z *ℤ pos 1) ≡ z
unfolding ◌*ℤ◌
whole (pos n) = ground arith
whole (negsuc n) = ground arith

-- A task that is pushed changes neither the position nor the width of the operation.
push-summary :
    (task : Task) (m : Model)
    → (summary_pos (push (task ∷ m)) ≡ summary_pos (task ∷ m))
      × (summary_width (push (task ∷ m)) ≡ summary_width (task ∷ m))
unfolding push summary_pos summary_width
push-summary task m = (one_step _, whole _)

-- How many tasks more there are after the operations; none if they pop one that was there before.
unfoldable pub depth_after : List Op → ℕ → Option ℕ
depth_after [] n = some n
depth_after (do_push ∷ ops) n = depth_after ops (suc n)
depth_after (do_pop ∷ ops) zero = none
depth_after (do_pop ∷ ops) (suc n) = depth_after ops n
depth_after (_ ∷ ops) n = depth_after ops n

module _ (m : Model) where
  subtask :
      (ops : List Op) (top : List Task) (task : Task)
      → depth_after ops (length top) ≡ some 0
      → apply_all (ops ++ do_pop ∷ []) (top ++ task ∷ m) ≡ some m
  unfolding apply_all depth_after push pop advance adjust_width set_width
  subtask [] [] task h = refl
  subtask [] (t ∷ top) task h = cc
  subtask (do_push ∷ ops) top task h = subtask ops (_ ∷ top) task h
  subtask (do_pop ∷ ops) [] task h = cc
  subtask (do_pop ∷ ops) (t ∷ top) task h = subtask ops top task h
  subtask (do_advance ∷ ops) [] task h = subtask ops [] _ h
  subtask (do_advance ∷ ops) (t ∷ top) task h = subtask ops (_ ∷ top) task h
  subtask (do_adjust_width z ∷ ops) [] task h = subtask ops [] _ h
  subtask (do_adjust_width z ∷ ops) (t ∷ top) task h = subtask ops (_ ∷ top) task h
  subtask (do_set_width z ∷ ops) [] task h = subtask ops [] _ h
  subtask (do_set_width z ∷ ops) (t ∷ top) task h = subtask ops (_ ∷ top) task h

  -- A push, then any operations that pop no more than they push, each pop behind its push, then a
  -- pop: no operation raises, and the model is as it was before the push.
  pub push-pop :
      (ops : List Op)
      → depth_after ops 0 ≡ some 0
      → apply_all (do_push ∷ (ops ++ do_pop ∷ [])) m ≡ some m
  unfolding apply_all push
  push-pop ops h = subtask ops [] _ h
