-- ===== src/Progress.antt =====
-- pysubunit/progress_model.py: a stack of nested tasks, the innermost first here, where the source
-- has it last.
pub mod Summary
use pysubunit.Prelude.{ℕ, zero, suc, Option, none, some, List, [], ◌∷◌}
use pysubunit.Prelude.Int.{ℤ, pos, negsuc, ◌+ℤ◌, ◌*ℤ◌}

pub record Task : Type 0 where
  pub position : ℤ
  pub task_width : ℤ
  pub overall_numerator : ℤ
  pub overall_denominator : ℤ

abbrev pub Model : Type 0
Model = List Task

-- `width or 1`
abbrev or_1 : ℤ → ℤ
or_1 (pos zero) = pos 1
or_1 (pos (suc n)) = pos (suc n)
or_1 (negsuc n) = negsuc n

unfoldable pub summary_pos : Model → ℤ
summary_pos [] = pos 0
summary_pos (task ∷ []) = pos 0 +ℤ task.position
summary_pos (task ∷ outer ∷ tasks) = task.overall_numerator *ℤ or_1 task.task_width +ℤ task.position

unfoldable pub summary_width : Model → ℤ
summary_width [] = pos 0
summary_width (task ∷ []) = task.task_width
summary_width (task ∷ outer ∷ tasks) = task.overall_denominator *ℤ or_1 task.task_width

unfoldable pub push : Model → Model
push m =
    record {
      position = pos 0;
      task_width = pos 0;
      overall_numerator = summary_pos m;
      overall_denominator = summary_width m;
    }
    ∷ m

-- On a model without tasks the operations raise IndexError: none.
unfoldable pub pop : Model → Option Model
pop [] = none
pop (task ∷ tasks) = some tasks

unfoldable pub adjust_width : ℤ → Model → Option Model
adjust_width offset [] = none
adjust_width offset (task ∷ tasks) =
    some (record task { task_width = task.task_width +ℤ offset } ∷ tasks)

unfoldable pub advance : Model → Option Model
advance [] = none
advance (task ∷ tasks) = some (record task { position = task.position +ℤ pos 1 } ∷ tasks)

unfoldable pub set_width : ℤ → Model → Option Model
set_width width [] = none
set_width width (task ∷ tasks) = some (record task { task_width = width } ∷ tasks)

abbrev pub new : Model
new = push []

pub data Op : Type 0 where
  do_push do_pop do_advance : Op
  do_adjust_width do_set_width : ℤ → Op

abbrev pub apply : Op → Model → Option Model
apply do_push m = some (push m)
apply do_pop m = pop m
apply do_advance m = advance m
apply (do_adjust_width offset) m = adjust_width offset m
apply (do_set_width width) m = set_width width m

unfoldable pub apply_all : List Op → Model → Option Model
apply_all [] m = some m
apply_all (op ∷ ops) m = elim (apply op m) [ none ↦ none | some n ↦ apply_all ops n ]
