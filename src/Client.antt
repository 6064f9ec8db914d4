-- ===== src/Client.antt =====
-- TaskRef of python/lapinq/client.py: _fetch_result and wait, against the handler that they poll.
pub mod Waiting
pub mod Payload
pub mod Delivery
mod Examples
use lapinq.Prelude.{ℕ, Bool, true, false, Option, none, some, List, [], ◌∷◌, if◌then◌else◌}
use lapinq.Storage.Task.{Status, is_final, Table}
use lapinq.Server.Handlers.{
  Answer, failure, crash, done, task_is, result_is, unfinished, get_task_result_handler,
}

-- resp.json() if resp.status_code == 200 else None
abbrev pub fetched : Answer → Option Answer
fetched (failure code error) = none
fetched crash = none
fetched answer = some answer

-- result.get("status") in ("completed", "failed", "cancelled", "expired")
abbrev pub is_settled : Answer → Bool
is_settled (result_is r) = is_final r.status
is_settled (unfinished s) = is_final s
is_settled _ = false

-- The table as it is at each poll before the deadline; `none` stands for the TimeoutError.
pub wait : ℕ → List Table → Option Answer
unfolding get_task_result_handler
wait task_id [] = none
wait task_id (ts ∷ polls) =
    let later = wait task_id polls in
    elim (fetched (get_task_result_handler (some task_id) ts)) [
      | none ↦ later
      | some answer ↦ if is_settled answer then some answer else later
    ]
