-- ===== src/Server/Metrics.antt =====
-- The handler metrics of python/lapinq/server.py; a line of its answer is an entry of the list.
use lapinq.Prelude.{ℕ, String, List, [], ◌∷◌, ◌++◌}
use lapinq.Prelude.Texts.{joined, decimal}
use lapinq.Storage.Queries.{QueueStats}

abbrev count_line : String → String → ℕ → String
count_line queue status n =
    joined ("lapinq_tasks{queue=\"" ∷ queue ∷ "\",status=\"" ∷ status ∷ "\"} " ∷ decimal n ∷ [])

abbrev pub queue_lines : QueueStats → List String
queue_lines q =
    count_line q.queue_name "pending" q.pending
    ∷ count_line q.queue_name "running" q.running
    ∷ count_line q.queue_name "completed" q.completed
    ∷ count_line q.queue_name "failed" q.failed
    ∷ count_line q.queue_name "cancelled" q.cancelled
    ∷ []

abbrev all_lines : List QueueStats → List String
all_lines [] = []
all_lines (q ∷ qs) = queue_lines q ++ all_lines qs

abbrev pub metrics : List QueueStats → List String
metrics stats =
    "# HELP lapinq_tasks Task counts by queue and status"
    ∷ "# TYPE lapinq_tasks gauge"
    ∷ (all_lines stats
        ++ "# HELP lapinq_info Lapinq metadata" ∷ "# TYPE lapinq_info gauge"
          ∷ "lapinq_info{version=\"1.3.0\"} 1" ∷ "" ∷ [])
