-- ===== src/Client/Payload/Sending.antt =====
-- What the server makes of the payload.
use Prim.Native.String
use lapinq.Prelude.{
  ℕ, ◌≡◌, ◌≢◌, refl, sym, ◌∙◌, ap, String, true, false, Option, none, some, [], ◌∷◌, ◌++◌, arith,
  ltb,
}
use mathlib.Core.Option.{some-injective}
use lapinq.Prelude.Int.{pos}
use lapinq.Json.{arr, obj, Items, Fields}
use lapinq.Storage.Task.{Table, find_task}
use lapinq.Storage.Enqueue.{Request, new_row, is_zero_ttl, enqueue, insert}
use lapinq.Server.Enqueueing.{
  goes, Readers, Post, created, exceeds, length_of, check_size, check_post, request_of,
  enqueue_handler,
}
use lapinq.Client.Payload.{
  TaskQueue, Function, Options, default_to, either_of, Registered, register, build_payload,
}
use lapinq.Client.Payload.Lookups.{
  metadata_json, got_task_name, got_queue_name, got_args, got_kwargs, got_module_path,
  got_scheduled_at, got_max_retries, got_ttl_seconds, got_priority, got_metadata, got_retry_delay,
  got_retry_backoff, got_webhook_url, as_float-json_or, as_bool-json_or, as_text-json_or,
  as_metadata-metadata_json, is_int4, as_int4-int, as_int4-json_or, instants, as_instant-json_or,
  required-str,
}

-- The row that the options ask for.
abbrev pub wanted : TaskQueue → Options → Function → String → Option ℕ → Items → Fields → Request
wanted q o f path at args kwargs = record {
  task_name = default_to o.name f.name;
  queue_name = default_to o.queue_name q.queue_name;
  module_path = path;
  args = arr args;
  kwargs = obj kwargs;
  scheduled_at = at;
  max_retries = default_to o.max_retries (pos 3);
  priority = o.priority;
  ttl_seconds = either_of o.ttl_seconds q.default_ttl_seconds;
  metadata = metadata_json o.metadata;
  retry_delay = o.retry_delay;
  retry_backoff = o.retry_backoff;
  webhook_url = o.webhook_url;
}

module _ (readers : Readers) (r : Registered) (args : Items) (kwargs : Fields) (at : Option ℕ) where
  requested : Request
  requested = record {
    task_name = r.task_name;
    queue_name = r.queue_name;
    module_path = r.module_path;
    args = arr args;
    kwargs = obj kwargs;
    scheduled_at = at;
    max_retries = default_to r.options.max_retries (pos 3);
    priority = r.options.priority;
    ttl_seconds = r.effective_ttl;
    metadata = metadata_json r.options.metadata;
    retry_delay = r.options.retry_delay;
    retry_backoff = r.options.retry_backoff;
    webhook_url = r.options.webhook_url;
  }

  request_of-build_payload :
      r.task_name ≢ ""
      → r.module_path ≢ ""
      → instants readers r.options.scheduled_at ≡ some at
      → is_int4 (default_to r.options.max_retries (pos 3)) ≡ true
      → is_int4 r.options.priority ≡ true
      → is_zero_ttl r.effective_ttl ≡ false
      → request_of readers (build_payload r args kwargs) ≡ goes requested
  unfolding request_of requested
  request_of-build_payload named placed reads retries priority alive =
      rw
        (
          got_ttl_seconds r args kwargs,
          as_float-json_or readers "invalid ttl_seconds" r.effective_ttl,
          got_metadata r args kwargs,
          as_metadata-metadata_json r.options.metadata,
          got_retry_delay r args kwargs,
          as_float-json_or readers "invalid retry_delay" r.options.retry_delay,
          got_task_name r args kwargs,
          required-str "task_name is required" r.task_name named,
          got_module_path r args kwargs,
          required-str "module_path is required" r.module_path placed,
          got_scheduled_at r args kwargs,
          as_instant-json_or readers r.options.scheduled_at at reads,
          alive,
          got_queue_name r args kwargs,
          got_max_retries r args kwargs,
          as_int4-json_or (pos 3) r.options.max_retries retries,
          got_priority r args kwargs,
          as_int4-int r.options.priority priority,
          got_retry_backoff r args kwargs,
          as_bool-json_or r.options.retry_backoff,
          got_webhook_url r args kwargs,
          as_text-json_or r.options.webhook_url,
          got_args r args kwargs,
          got_kwargs r args kwargs,
        )
        refl

  check_post-build_payload :
      (post : Post)
      → r.task_name ≢ ""
      → r.module_path ≢ ""
      → instants readers r.options.scheduled_at ≡ some at
      → is_int4 (default_to r.options.max_retries (pos 3)) ≡ true
      → is_int4 r.options.priority ≡ true
      → is_zero_ttl r.effective_ttl ≡ false
      → post.body ≡ some (obj (build_payload r args kwargs))
      → exceeds readers.max_payload (length_of post.content_length) ≡ false
      → ltb readers.max_payload (readers.size_of (obj (build_payload r args kwargs))) ≡ false
      → check_post readers post ≡ goes requested
  unfolding check_post check_size
  check_post-build_payload post named placed reads retries priority alive body short small =
      rw (short, body, small) (request_of-build_payload named placed reads retries priority alive)

  enqueue_handler-requested :
      (id now : ℕ) (post : Post) (ts : Table)
      → check_post readers post ≡ goes requested
      → is_zero_ttl r.effective_ttl ≡ false
      → find_task id ts ≡ none
      → enqueue_handler readers id now post ts
        ≡ (created (some id), ts ++ new_row id now requested ∷ [])
  unfolding enqueue_handler enqueue insert new_row requested
  enqueue_handler-requested id now post ts checked alive fresh =
      ground (arith, checked, alive, fresh)

-- What _register keeps for a function of the module `path`.
registered : TaskQueue → Options → Function → String → Registered
registered q o f path = record {
  task_name = default_to o.name f.name;
  qualified_name = String.◌++◌ path (String.◌++◌ "." f.qualname);
  module_path = path;
  queue_name = default_to o.queue_name q.queue_name;
  effective_ttl = either_of o.ttl_seconds q.default_ttl_seconds;
  options = o;
}

register-registered :
    (q : TaskQueue) (o : Options) (f : Function) (path : String)
    → f.module_name ≡ some path
    → register q o f ≡ some (registered q o f path)
unfolding register registered
register-registered q o f path m = rw m refl

-- The payload that a registered function sends comes back as it was meant: if the function has a
-- module, the name and the module are not empty, `scheduled_at` can be read, `max_retries` and
-- `priority` have 32 bits, the time to live is not zero, the body is within the limit and the new
-- identifier has no row, the handler `enqueue` answers 201 with it and adds one row whose columns
-- are those of the options, with the defaults of the queue and of the server.
pub enqueue_handler-register :
    (readers : Readers) (q : TaskQueue) (o : Options) (f : Function) (path : String)
    (r : Registered) (args : Items) (kwargs : Fields) (at : Option ℕ) (id now : ℕ) (post : Post)
    (ts : Table)
    → f.module_name ≡ some path
    → register q o f ≡ some r
    → default_to o.name f.name ≢ ""
    → path ≢ ""
    → instants readers o.scheduled_at ≡ some at
    → is_int4 (default_to o.max_retries (pos 3)) ≡ true
    → is_int4 o.priority ≡ true
    → is_zero_ttl (either_of o.ttl_seconds q.default_ttl_seconds) ≡ false
    → post.body ≡ some (obj (build_payload r args kwargs))
    → exceeds readers.max_payload (length_of post.content_length) ≡ false
    → ltb readers.max_payload (readers.size_of (obj (build_payload r args kwargs))) ≡ false
    → find_task id ts ≡ none
    → enqueue_handler readers id now post ts
      ≡ (created (some id), ts ++ new_row id now (wanted q o f path at args kwargs) ∷ [])
unfolding registered requested
enqueue_handler-register readers q o f path r args kwargs at id now post ts m e named placed reads
      retries priority alive body short small fresh =
    let same : registered q o f path ≡ r =
      some-injective (registered q o f path) r (sym (register-registered q o f path m) ∙ e) in
    let back : r ≡ registered q o f path = sym same in
    enqueue_handler-requested readers (registered q o f path) args kwargs at id now post ts
      (check_post-build_payload readers (registered q o f path) args kwargs at post named placed
        reads retries priority alive
        (body ∙ ap (λ x. some (obj (build_payload x args kwargs))) back) short
        (ap (λ x. ltb readers.max_payload (readers.size_of (obj (build_payload x args kwargs))))
            same
          ∙ small))
      alive fresh
