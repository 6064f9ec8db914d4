-- ===== src/Server/Page/Lookup.antt =====
-- The search for a task by its identifier.
use lapinq.Prelude.{ℕ, ◌≡◌, String, true, none, some, inl, inr, Bool-cases}
use lapinq.Json.{str, is_truthy}
use lapinq.Storage.Task.{Task}
use lapinq.Storage.Queries.{get_task}
use lapinq.Server.Page.{Texts, Filters, Sight, selected_by_id, selected, page}

-- When the filter `id` of the web socket is the whole identifier of a task that is there, no page
-- can be made, whatever else the tables hold.
pub page-fails :
    (texts : Texts) (g : Sight) (f : Filters) (s : String) (task_id : ℕ) (t : Task)
    → f.id ≡ str s
    → is_truthy (str s) ≡ true
    → texts.uuid_of (texts.strip s) ≡ some task_id
    → get_task task_id g.tasks ≡ some t
    → page texts g f ≡ none
unfolding page selected selected_by_id
page-fails texts g f s task_id t searched given read there = elim (Bool-cases g.is_reachable) [
  | inl e ↦ rw (e, searched, given, read, there)
  | inr e ↦ rw e
]
