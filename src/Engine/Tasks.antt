-- ===== src/Engine/Tasks.antt =====
-- engine.py: the supervision of the engine's tasks, one round of `_supervise`.
use poly_maker.Prelude.{
  ℕ, ◌+◌, ◌≡◌, refl, ap, Bool, false, not, ◌||◌, some, [], ◌∷◌, String, if◌then◌else◌, arith, All,
  ◌⊎◌,
}
use poly_maker.Prelude.Eq.{◌==◌, string_eq}
use poly_maker.Dict.{Dict, lookup, keys}

-- A task with the number of times it was started, and whether it has ended
pub record Task : Type 0 where
  pub starts : ℕ
  pub is_done : Bool

-- `asyncio.create_task` of the task's factory
abbrev pub restart : Task → Task
restart t = record { starts = t.starts + 1; is_done = false }

abbrev pub supervise_task : String → Task → Task
supervise_task name t = if name == "supervisor" || not t.is_done then t else restart t

-- The loop over the tasks
unfoldable pub supervise : Dict String Task → Dict String Task
supervise [] = []
supervise ((name, t) ∷ tasks) = (name, supervise_task name t) ∷ supervise tasks

-- After a round every task but the supervisor runs, whatever had ended; the tasks are the same ones, a
-- task that ran is left alone, and one that had ended is started exactly once.
pub supervise_lem :
    (tasks : Dict String Task)
    → (keys (supervise tasks) ≡ keys tasks)
      × All (λ (e : String × Task). (e.0 ≡ "supervisor") ⊎ (e.1.is_done ≡ false)) (supervise tasks)
      × ((name : String) (t : Task)
          → lookup name tasks ≡ some t
          → lookup name (supervise tasks)
            ≡ some (if name == "supervisor" || not t.is_done then t else restart t))
unfolding supervise
supervise_lem [] = (refl, tt, λ name t h. cc h)
supervise_lem ((name, t) ∷ tasks) =
    let rest = supervise_lem tasks in
    (
      ap (λ ks. name ∷ ks) rest.0,
      (ground (arith, string_eq.same_iff name "supervisor"), rest.1),
      λ n u h. ground (arith, string_eq.same_iff name n, rest.2 n u),
    )
