-- ===== src/Server/Enqueueing/Answers.antt =====
-- What a reply of the handler `enqueue` says about the table.
use lapinq.Prelude.{
  ℕ, ◌≡◌, ◌≢◌, ◌⊎◌, inl, inr, refl, ap, ◌∙◌, String, true, false, Option, none, some, [], ◌∷◌, ◌++◌,
  arith, if◌then◌else◌, ltb, Option-cases,
}
use lapinq.Prelude.Int.{pos}
use lapinq.Json.{Json, null, int, str, Fields, is_truthy}
use lapinq.Storage.Task.{Task, Table, pending, find_task}
use lapinq.Storage.Enqueue.{Request, is_zero_ttl, new_row, insert, enqueue}
use lapinq.Server.Enqueueing.{
  length_of, exceeds, Reply, created, refused, Checked, stops, goes, get, Readers, Post, check_size,
  request_of, check_post, reply_of, enqueue_handler,
}
use lapinq.Server.Enqueueing.Checks.{
  NoId, Passes, ◌&>◌, stopped, went, Any, refused-NoId, none-NoId, as_float-Passes,
  as_metadata-Passes, as_instant-Passes, if-Passes, required-Passes, as_text-Passes,
  as_text_or_null-Passes, as_int4-Passes, as_bool_or_null-Passes, as_fields-Passes,
}

-- A request that passes the checks names a function and a module, and its TTL is not zero.
abbrev IsComplete : Request → Type 0
IsComplete r = (r.task_name ≢ "") × (r.module_path ≢ "") × (is_zero_ttl r.ttl_seconds ≡ false)

filled : (j : Json) (t : String) → is_truthy j ≡ true → j ≡ str t → t ≢ ""
filled j t h e k = ground (arith, ap is_truthy (e ∙ ap str k))

request_of-Passes :
    (readers : Readers) (body : Fields) → Passes IsComplete (request_of readers body)
unfolding request_of
request_of-Passes readers body =
    as_float-Passes readers "invalid ttl_seconds" (get "ttl_seconds" body null) &> λ ttl a.
    as_metadata-Passes (get "metadata" body null) &> λ metadata b.
    as_float-Passes readers "invalid retry_delay" (get "retry_delay" body null) &> λ delay c.
    required-Passes "task_name is required" (get "task_name" body null) &> λ u named.
    required-Passes "module_path is required" (get "module_path" body (str "")) &> λ u placed.
    as_instant-Passes readers (get "scheduled_at" body null) &> λ at d.
    if-Passes (λ u. is_zero_ttl ttl ≡ false) (is_zero_ttl ttl) (stops (created none))
      (goes (tt {0})) (λ h. stopped _ none-NoId) (λ h. went _ h)
    &> λ u alive. as_text-Passes (get "task_name" body null) &> λ name is_name.
        as_text-Passes (get "queue_name" body (str "default")) &> λ queue e.
        as_text-Passes (get "module_path" body (str "")) &> λ path is_path.
        as_int4-Passes (get "max_retries" body (int (pos 3))) &> λ retries f.
        as_int4-Passes (get "priority" body (int (pos 0))) &> λ priority g.
        as_bool_or_null-Passes (get "retry_backoff" body null) &> λ backoff k.
        as_text_or_null-Passes (get "webhook_url" body null) &> λ url l. went _ (
          filled (get "task_name" body null) name named is_name,
          filled (get "module_path" body (str "")) path placed is_path,
          alive,
        )

check_size-Passes : (readers : Readers) (post : Post) → Passes Any (check_size readers post)
unfolding check_size
check_size-Passes readers post =
    if-Passes Any (exceeds readers.max_payload (length_of post.content_length)) _ _
      (λ h. stopped _ (refused-NoId 413 "payload too large")) (λ h. by_body post.body)
  where
    by_body :
        (o : Option Json)
        → Passes Any (elim o as (λ x. Checked Json) [
          | none ↦ stops (refused 400 "invalid JSON body")
          | some body ↦
              if ltb readers.max_payload (readers.size_of body)
              then stops (refused 413 "payload too large")
              else goes body
        ])
    by_body none = stopped _ (refused-NoId 400 "invalid JSON body")
    by_body (some body) =
        if-Passes Any (ltb readers.max_payload (readers.size_of body))
          (stops (refused 413 "payload too large")) (goes body)
          (λ h. stopped _ (refused-NoId 413 "payload too large")) (λ h. went _ tt)

check_post-Passes : (readers : Readers) (post : Post) → Passes IsComplete (check_post readers post)
unfolding check_post
check_post-Passes readers post = check_size-Passes readers post &> λ json u.
    as_fields-Passes json &> λ body v. request_of-Passes readers body

-- What enqueue does with a complete request, under the primary key.
abbrev Outcome : ℕ → Table → Reply × Table → Type 0
Outcome id ts p =
    ((row : Task) × (p ≡ (created (some id), ts ++ row ∷ []))
      × (row.id ≡ id)
      × (find_task id ts ≡ none)
      × (row.status ≡ pending)
      × (row.attempts ≡ 0)
      × (row.task_name ≢ "")
      × (row.module_path ≢ ""))
    ⊎ ((p.1 ≡ ts) × NoId p.0)

enqueued-Outcome :
    (id now : ℕ) (r : Request) (ts : Table)
    → IsComplete r
    → Outcome id ts (reply_of (enqueue id now r ts))
unfolding enqueue insert new_row
enqueued-Outcome id now r ts (named, placed, alive) = elim (Option-cases (find_task id ts)) [
  | inl e ↦ inl (new_row id now r, ground (arith, alive, e), refl, e, refl, refl, named, placed)
  | inr (old, e) ↦ inr (ground (arith, alive, e), λ k h. ground (arith, alive, e))
]

-- For every request to the handler `enqueue` (whose body has no literal NaN or Infinity), either
-- the reply is 201 with the identifier and the table has one row more, with that identifier, which
-- no row had, pending, with no attempts and with a name and a module that are not empty; or the
-- reply has no identifier and the table is as it was.
pub enqueue_handler-answers :
    (readers : Readers) (id now : ℕ) (post : Post) (ts : Table)
    → ((row : Task) × (enqueue_handler readers id now post ts ≡ (created (some id), ts ++ row ∷ []))
        × (row.id ≡ id)
        × (find_task id ts ≡ none)
        × (row.status ≡ pending)
        × (row.attempts ≡ 0)
        × (row.task_name ≢ "")
        × (row.module_path ≢ ""))
      ⊎ (((enqueue_handler readers id now post ts).1 ≡ ts)
          × ((k : ℕ) → (enqueue_handler readers id now post ts).0 ≢ created (some k)))
unfolding enqueue_handler
enqueue_handler-answers readers id now post ts =
    by_check (check_post readers post) (check_post-Passes readers post)
  where
    by_check :
        (c : Checked Request)
        → Passes IsComplete c
        → Outcome id ts (elim c as (λ x. Reply × Table) [
          | stops r ↦ (r, ts)
          | goes request ↦ reply_of (enqueue id now request ts)
        ])
    by_check _ (stopped r h) = inr (refl, h)
    by_check _ (went request h) = enqueued-Outcome id now request ts h
