-- ===== src/Worker/Fleet/Examples.antt =====
-- Two workers and the server on the small table, on which the theorem is applied.
use lapinq.Prelude.{refl, String, Bool, true, ◌⊎◌, inr, none, [], ◌∷◌, arith}
use lapinq.Prelude.Int.{pos}
use lapinq.Json.{Json}
use lapinq.Storage.Task.{Task}
use lapinq.Storage.Claim.{claimed, claim_task, select_first, is_claimable, goes_before}
use lapinq.Storage.Examples.{task, three, free}
use lapinq.Storage.Lifecycle.{requeues, apply}
use lapinq.Worker.Process.{timed_out, Answers, process_task}
use lapinq.Worker.Fleet.{Fleet, takes, reports, others, Reaches, begins, steps}
use lapinq.Worker.Fleet.Exclusion.{IsExclusive, Reaches-IsExclusive}

abbrev concat : Json → Json → Json
concat a b = b

abbrev contains : String → String → Bool
contains a b = true

abbrev text : Json → String
text j = ""

abbrev encode : String → String ⊎ String
encode s = inr s

abbrev first : Task
first = claimed "w" 20 (task 3 (pos 7) 8)

abbrev second : Task
second = claimed "v" 21 (task 2 (pos 7) 9)

abbrev timed : Answers String
timed = record { run = timed_out; now = 50; complete_error = none; fail_error = none }

abbrev one : Fleet
one = record {
  table = task 1 (pos 0) 5 ∷ task 2 (pos 7) 9 ∷ first ∷ [];
  jobs = record { worker = "w"; task = first } ∷ [];
}

abbrev two : Fleet
two = record {
  table = task 1 (pos 0) 5 ∷ second ∷ first ∷ [];
  jobs = record { worker = "v"; task = second } ∷ record { worker = "w"; task = first } ∷ [];
}

-- The first job times out while the second one runs, after a requeue of the second task, which meets
-- nothing.
abbrev requeued : Fleet
requeued = record two { table = apply concat contains text (requeues 30 2) two.table }

abbrev reported : Fleet
reported = record {
  table = (process_task encode first timed requeued.table).table;
  jobs = record { worker = "v"; task = second } ∷ [];
}

Reaches-reported : Reaches concat contains text encode three reported
unfolding claim_task select_first is_claimable goes_before
Reaches-reported =
    steps requeued reported
      (steps two requeued
        (steps one two
          (steps (record { table = three; jobs = [] }) one begins
            (takes _ "w" 20 free first one.table refl))
          (takes one "v" 21 free second two.table refl))
        (others two (requeues 30 2) tt (tt, (tt, tt))))
      (reports requeued (record { worker = "v"; task = second } ∷ []) []
        (record { worker = "w"; task = first }) timed refl)

Reaches-IsExclusive_example : IsExclusive reported
Reaches-IsExclusive_example =
    Reaches-IsExclusive concat contains text encode three reported (omega arith) Reaches-reported
