-- ===== src/Server/Batching/Answers.antt =====
-- What a reply of the handler `enqueue_batch` says about the table.
use lapinq.Prelude.{
  ℕ, suc, String, ap, ◌≤◌, ◌≡◌, refl, sym, ◌∙◌, subst, ◌⊎◌, inl, inr, Option, none, some, List, [],
  ◌∷◌, ◌++◌, map, arith, Bool-cases, ltb,
}
use mathlib.Core.List.{append-nil}
use lapinq.Prelude.Lists.{length}
use lapinq.Json.{Json, null, bool, int, float, str, arr, obj, Fields, is_truthy}
use lapinq.Storage.Task.{Table}
use lapinq.Storage.Batch.Progress.{enqueue_batch-grows, Answers}
use lapinq.Server.Enqueueing.{get}
use lapinq.Server.Batching.{
  Reply, created_all, refused, crashed, enqueue_dicts, elements, check_names, batch_reply,
  batch_limit, enqueue_batch_handler,
}
use lapinq.Server.Batching.Stopping.{enqueue_dicts-Stopped}
use lapinq.Server.Batching.Effects.{enqueue_dicts-Effect}

-- The loop stops at the item `failing`: those before it succeed by themselves and added the rows.
abbrev pub StopsAt : (ℕ → ℕ × ℕ) → List Json → Table → Table → Type 0
StopsAt draw js ts rows =
    (before : List Fields) × (failing : Fields) × (after : List Fields) × (js
      ≡ map obj (before ++ failing ∷ after))
    × (enqueue_dicts draw 0 before ts ≡ (some (map (λ t. t.id) rows), ts ++ rows))
    × (enqueue_dicts draw 0 (before ++ failing ∷ []) ts ≡ (none, ts ++ rows))

abbrev pub entries : Option Json → List Json
entries (some (arr items)) = elements items
entries body = []

-- What a reply says of the rows that were added.
abbrev pub Says : (ℕ → ℕ × ℕ) → Option Json → Table → Reply → Table → Type 0
Says draw body ts (created_all ids) rows = (map (λ t. t.id) rows ≡ ids) × (length ids ≤ batch_limit)
Says draw body ts (refused code error) rows = rows ≡ []
Says draw body ts crashed rows =
    ((rows ≡ []) × (check_names (entries body) ≡ inl crashed)) ⊎ StopsAt draw (entries body) ts rows

-- A refusal leaves the rows alone, and an entry that is no dictionary is an exception.
abbrev Stops : List Json → Reply → Type 0
Stops js (created_all ids) = ⊥
Stops js (refused code error) = Unit {0}
Stops js crashed = check_names js ≡ inl crashed

check_names-Stops :
    (js : List Json)
    → ((r : Reply) × (check_names js ≡ inl r) × Stops js r)
      ⊎ ((dicts : List Fields) × (check_names js ≡ inr dicts) × (js ≡ map obj dicts))
unfolding check_names
check_names-Stops [] = inr ([], refl, refl)
check_names-Stops (obj t ∷ rest) = elim (Bool-cases (is_truthy (get "task_name" t null))) [
  | inr n ↦ inl (refused 400 "each task must have a task_name", rw n refl, tt)
  | inl y ↦ elim (check_names-Stops rest) [
    | inl (created_all ids, e, h) ↦ absurd h
    | inl (refused code error, e, h) ↦ inl (refused code error, rw (y, e) refl, tt)
    | inl (crashed, e, h) ↦ inl (crashed, rw (y, e) refl, rw (y, e) refl)
    | inr (dicts, e, h) ↦ inr (t ∷ dicts, rw (y, e) refl, ap (λ js. obj t ∷ js) h)
  ]
]
check_names-Stops (null ∷ rest) = inl (crashed, refl, refl)
check_names-Stops (bool b ∷ rest) = inl (crashed, refl, refl)
check_names-Stops (int n ∷ rest) = inl (crashed, refl, refl)
check_names-Stops (float x ∷ rest) = inl (crashed, refl, refl)
check_names-Stops (str s ∷ rest) = inl (crashed, refl, refl)
check_names-Stops (arr x ∷ rest) = inl (crashed, refl, refl)

-- The rows that a reply with its table comes with.
abbrev Grown : (ℕ → ℕ × ℕ) → Option Json → Table → Reply × Table → Type 0
Grown draw body ts p = (rows : Table) × (p.1 ≡ ts ++ rows) × Says draw body ts p.0 rows

refused-Grown :
    (draw : ℕ → ℕ × ℕ) (body : Option Json) (code : ℕ) (error : String) (ts : Table)
    → Grown draw body ts (refused code error, ts)
refused-Grown draw body code error ts = ([], sym (append-nil ts), refl)

stopped-Grown :
    (draw : ℕ → ℕ × ℕ) (body : Option Json) (r : Reply) (ts : Table)
    → Stops (entries body) r
    → Grown draw body ts (r, ts)
stopped-Grown draw body (created_all ids) ts h = absurd h
stopped-Grown draw body (refused code error) ts h = refused-Grown draw body code error ts
stopped-Grown draw body crashed ts h = ([], sym (append-nil ts), inl (refl, h))

-- The rows that a loop without an exception adds.
enqueue_dicts-grows :
    (draw : ℕ → ℕ × ℕ) (dicts : List Fields) (ts us : Table) (ids : List ℕ)
    → enqueue_dicts draw 0 dicts ts ≡ (some ids, us)
    → (rows : Table) × (us ≡ ts ++ rows)
      × (map (λ t. t.id) rows ≡ ids)
      × (length ids ≤ length dicts)
enqueue_dicts-grows draw dicts ts us ids e =
    let f = enqueue_dicts-Effect draw 0 dicts ts in
    let (rows, grown, answers) = enqueue_batch-grows f.items ts in
    let same = ap (λ p. p.0) e in
    (
      rows,
      sym (ap (λ p. p.1) e) ∙ sym f.same_table ∙ grown,
      subst (λ r. Answers r rows) (f.same_ids ids same) answers,
      f.few ids same,
    )

batch_reply-Grown :
    (draw : ℕ → ℕ × ℕ) (body : Option Json) (dicts : List Fields) (p : Option (List ℕ) × Table)
    (ts : Table)
    → length dicts ≤ batch_limit
    → entries body ≡ map obj dicts
    → enqueue_dicts draw 0 dicts ts ≡ p
    → Grown draw body ts (batch_reply p)
batch_reply-Grown draw body dicts (some ids, us) ts h js e =
    let (rows, grown, same, few) = enqueue_dicts-grows draw dicts ts us ids e in
    (rows, grown, (same, omega (arith, few, h)))
batch_reply-Grown draw body dicts (none, us) ts h js e =
    let s = enqueue_dicts-Stopped draw 0 dicts ts us e in
    let (rows, grown, same, _) = enqueue_dicts-grows draw s.before ts us s.ids s.went in
    (
      rows,
      grown,
      inr (
        s.before,
        s.failing,
        s.after,
        js ∙ ap (map obj) s.split,
        s.went
            ∙ ap (λ ids. (some ids, us)) (sym same)
            ∙ ap (λ vs. (some (map (λ t. t.id) rows), vs)) grown,
        s.fails ∙ ap (λ vs. (none, vs)) grown,
      ),
    )

length-map_obj : (dicts : List Fields) → length (map obj dicts) ≡ length dicts
length-map_obj [] = refl
length-map_obj (t ∷ dicts) = ap suc (length-map_obj dicts)

-- Whatever the body of a request to the handler `enqueue_batch` is (but for the literals NaN and
-- Infinity), the table only has rows added: with 201, those whose identifiers are answered, in
-- order and at most 1000; with an error status, none; and with an exception, none where an entry
-- of the body is no dictionary, and else those of the items before the one that failed, which
-- succeed by themselves with the identifiers of these rows, while the loop as far as that item
-- raises.
pub enqueue_batch_handler-answers :
    (draw : ℕ → ℕ × ℕ) (body : Option Json) (ts : Table)
    → (rows : Table) × ((enqueue_batch_handler draw body ts).1 ≡ ts ++ rows)
      × Says draw body ts (enqueue_batch_handler draw body ts).0 rows
unfolding enqueue_batch_handler
enqueue_batch_handler-answers draw none ts = refused-Grown draw none 400 "invalid JSON body" ts
enqueue_batch_handler-answers draw (some (arr items)) ts =
    elim (Bool-cases (ltb batch_limit (length (elements items)))) [
      | inl b ↦ rw b (refused-Grown draw (some (arr items)) 400 "batch limit is 1000 tasks" ts)
      | inr b ↦ elim (check_names-Stops (elements items)) [
        | inl (r, e, h) ↦ rw (b, e) (stopped-Grown draw (some (arr items)) r ts h)
        | inr (dicts, e, h) ↦
            rw (b, e)
              (batch_reply-Grown draw (some (arr items)) dicts (enqueue_dicts draw 0 dicts ts) ts
                (ground (arith, b, ap length h, length-map_obj dicts)) h refl)
      ]
    ]
enqueue_batch_handler-answers draw (some null) ts =
    refused-Grown draw (some null) 400 "body must be a JSON array" ts
enqueue_batch_handler-answers draw (some (bool b)) ts =
    refused-Grown draw (some (bool b)) 400 "body must be a JSON array" ts
enqueue_batch_handler-answers draw (some (int n)) ts =
    refused-Grown draw (some (int n)) 400 "body must be a JSON array" ts
enqueue_batch_handler-answers draw (some (float x)) ts =
    refused-Grown draw (some (float x)) 400 "body must be a JSON array" ts
enqueue_batch_handler-answers draw (some (str s)) ts =
    refused-Grown draw (some (str s)) 400 "body must be a JSON array" ts
enqueue_batch_handler-answers draw (some (obj t)) ts =
    refused-Grown draw (some (obj t)) 400 "body must be a JSON array" ts
