-- ===== src/Dashboard/Failing.antt =====
-- When the table can be made.
use Prim.Native.String
use lapinq.Prelude.{
  ℕ, ◌≡◌, refl, ◌∙◌, String, Bool, true, false, not, ◌&&◌, Option, none, some, List, [], ◌∷◌, ◌++◌,
  is_some, if◌then◌else◌,
}
use lapinq.Prelude.Texts.{listed}
use lapinq.Json.{Json, null, bool, int, float, str, arr, obj, nil, cons, end, field, is_truthy}
use lapinq.Prelude.Lists.{all}
use lapinq.Server.Remaining.{format_ttl}
use lapinq.Server.Remaining.Answering.{is_datable, is_some-format_ttl}
use lapinq.Storage.Task.{Task}
use lapinq.Dashboard.{
  ◌>>=◌, table_of, row_of, args_part, kwargs_part, args_str, row_html, rows_html, tasks_table_html,
}

abbrev pub is_iterable : Json → Bool
is_iterable (arr items) = true
is_iterable (obj fields) = true
is_iterable (str text) = true
is_iterable j = not (is_truthy j)

abbrev pub is_mapping : Json → Bool
is_mapping (obj fields) = true
is_mapping j = not (is_truthy j)

abbrev pub is_shown : Task → Bool
is_shown t = is_datable t.created_at t.ttl_seconds && (is_iterable t.args && is_mapping t.kwargs)

is_some-both {ℓ κ μ} :
    {A : Type ℓ} {B : Type κ} {C : Type μ} (o : Option A) (p : Option B) (f : A → B → C)
    → is_some (o >>= λ a. p >>= λ b. some (f a b)) ≡ is_some o && is_some p
is_some-both none p f = refl
is_some-both (some a) none f = refl
is_some-both (some a) (some b) f = refl

is_some-map {ℓ κ} :
    {A : Type ℓ} {B : Type κ} (o : Option A) (f : A → B)
    → is_some (o >>= λ a. some (f a)) ≡ is_some o
is_some-map none f = refl
is_some-map (some a) f = refl

is_some-unless : (b : Bool) → is_some {A = List String} (if b then none else some []) ≡ not b
is_some-unless true = refl
is_some-unless false = refl

module _ (value_text : Json → String) (id_text : ℕ → String) (now : ℕ) where
  is_some-args_part : (j : Json) → is_some (args_part value_text id_text now j) ≡ is_iterable j
  is_some-args_part null = is_some-unless (is_truthy null)
  is_some-args_part (bool b) = is_some-unless (is_truthy (bool b))
  is_some-args_part (int n) = is_some-unless (is_truthy (int n))
  is_some-args_part (float x) = is_some-unless (is_truthy (float x))
  is_some-args_part (str String.[]) = refl
  is_some-args_part (str (String.◌∷◌ c s)) = refl
  is_some-args_part (arr nil) = refl
  is_some-args_part (arr (cons a rest)) = refl
  is_some-args_part (obj end) = refl
  is_some-args_part (obj (field k v rest)) = refl

  is_some-kwargs_part : (j : Json) → is_some (kwargs_part value_text id_text now j) ≡ is_mapping j
  is_some-kwargs_part null = is_some-unless (is_truthy null)
  is_some-kwargs_part (bool b) = is_some-unless (is_truthy (bool b))
  is_some-kwargs_part (int n) = is_some-unless (is_truthy (int n))
  is_some-kwargs_part (float x) = is_some-unless (is_truthy (float x))
  is_some-kwargs_part (str text) = is_some-unless (is_truthy (str text))
  is_some-kwargs_part (arr items) = is_some-unless (is_truthy (arr items))
  is_some-kwargs_part (obj end) = refl
  is_some-kwargs_part (obj (field k v rest)) = refl

  is_some-row_html : (t : Task) → is_some (row_html value_text id_text now t) ≡ is_shown t
  unfolding row_html args_str
  is_some-row_html t =
      is_some-both (format_ttl now t.created_at t.ttl_seconds)
        (args_str value_text id_text now t.args t.kwargs) (row_of value_text id_text now t)
      ∙ rw (
        is_some-format_ttl now t.created_at t.ttl_seconds,
        is_some-both (args_part value_text id_text now t.args)
            (kwargs_part value_text id_text now t.kwargs) (λ parts more. listed (parts ++ more)),
        is_some-args_part t.args,
        is_some-kwargs_part t.kwargs,
      )

  is_some-rows_html :
      (ts : List Task) → is_some (rows_html value_text id_text now ts) ≡ all is_shown ts
  is_some-rows_html [] = refl
  is_some-rows_html (t ∷ ts) =
      is_some-both (row_html value_text id_text now t) (rows_html value_text id_text now ts)
        String.◌++◌
      ∙ rw (is_some-row_html t, is_some-rows_html ts)

  -- The table of the tasks can be made exactly if each task has an end of its time to live that is
  -- a datetime, if any, an args that is falsy or can be iterated, and a kwargs that is falsy or a
  -- dictionary.
  pub is_some-tasks_table_html :
      (ts : List Task) → is_some (tasks_table_html value_text id_text now ts) ≡ all is_shown ts
  unfolding tasks_table_html
  is_some-tasks_table_html [] = refl
  is_some-tasks_table_html (t ∷ ts) =
      is_some-map (rows_html value_text id_text now (t ∷ ts)) table_of ∙ is_some-rows_html (t ∷ ts)
