-- ===== src/Dashboard/Verbatim.antt =====
-- What comes from a task stands in the page as it is.
use Prim.Native.String
use Prim.Native.String.append
use mathlib.Core.Option.{none-ne-some, some-injective}
use text.Mathlib.TextLemmas.{append_assoc}
use lapinq.Prelude.{
  ℕ, zero, suc, ◌+◌, ◌≤◌, ◌≡◌, refl, sym, ap, ◌∙◌, subst, String, Option, none, some, List, [], ◌∷◌,
  ◌++◌, arith,
}
use lapinq.Prelude.Texts.{prefix, size}
use lapinq.Json.{Json}
use lapinq.Storage.Task.{Task}
use lapinq.Server.Remaining.{format_ttl}
use lapinq.Dashboard.{◌>>=◌, fmt, args_str, table_of, row_of, row_html, rows_html, tasks_table_html}

bind-some {ℓ κ} :
    {A : Type ℓ} {B : Type κ} (o : Option A) (f : A → Option B) (b : B)
    → (o >>= f) ≡ some b
    → (a : A) × (o ≡ some a) × (f a ≡ some b)
bind-some none f b e = absurd (none-ne-some b e)
bind-some (some a) f b e = (a, refl, e)

-- A text stands in another as it is.
abbrev pub Occurs : String → String → Type 0
Occurs s t = (before : String) × (after : String) × (t ≡ String.◌++◌ before (String.◌++◌ s after))

Occurs-after : (s t u : String) → Occurs s t → Occurs s (String.◌++◌ u t)
Occurs-after s t u (before, after, e) = (
  String.◌++◌ u before,
  after,
  ap (String.◌++◌ u) e ∙ sym (append_assoc u before (String.◌++◌ s after)),
)

Occurs-before : (s t u : String) → Occurs s t → Occurs s (String.◌++◌ t u)
Occurs-before s t u (before, after, e) = (
  before,
  String.◌++◌ after u,
  ap (λ x. String.◌++◌ x u) e
      ∙ append_assoc before (String.◌++◌ s after) u
      ∙ ap (String.◌++◌ before) (append_assoc s after u),
)

Occurs-here : (s u : String) → Occurs s (String.◌++◌ s u)
Occurs-here s u = ("", u, sym (append.nil (String.◌++◌ s u)))

module _ (value_text : Json → String) (id_text : ℕ → String) (now : ℕ) where
  name-Occurs :
      (t : Task) (ttl args : String) → Occurs t.task_name (row_of value_text id_text now t ttl args)
  unfolding row_of
  name-Occurs t ttl args =
      Occurs-after t.task_name _ _
        (Occurs-after t.task_name _ _ (Occurs-after t.task_name _ _ (Occurs-here t.task_name _)))

  row-Occurs :
      (t : Task) (row : String)
      → row_html value_text id_text now t ≡ some row
      → Occurs t.task_name row
  unfolding row_html
  row-Occurs t row e =
      let args = args_str value_text id_text now t.args t.kwargs in
      let (ttl, _, e1) =
        bind-some (format_ttl now t.created_at t.ttl_seconds)
          (λ ttl. args >>= λ a. some (row_of value_text id_text now t ttl a)) row e in
      let (a, _, e2) = bind-some args (λ a. some (row_of value_text id_text now t ttl a)) row e1 in
      subst (Occurs t.task_name) (some-injective _ row e2) (name-Occurs t ttl a)

  cons-some :
      (u : Task) (ts : List Task) (rows : String)
      → rows_html value_text id_text now (u ∷ ts) ≡ some rows
      → (row : String) × (rest : String) × (row_html value_text id_text now u ≡ some row)
        × (rows_html value_text id_text now ts ≡ some rest)
        × (String.◌++◌ row rest ≡ rows)
  cons-some u ts rows e =
      let rest = rows_html value_text id_text now ts in
      let (row, h, e1) =
        bind-some (row_html value_text id_text now u) (λ r. rest >>= λ s. some (String.◌++◌ r s))
          rows e in
      let (s, k, e2) = bind-some rest (λ s. some (String.◌++◌ row s)) rows e1 in
      (row, s, h, k, some-injective _ rows e2)

  rows-Occurs :
      (before after : List Task) (t : Task) (rows : String)
      → rows_html value_text id_text now (before ++ t ∷ after) ≡ some rows
      → Occurs t.task_name rows
  rows-Occurs [] after t rows e =
      let (row, rest, h, _, same) = cons-some t after rows e in
      subst (Occurs t.task_name) same (Occurs-before t.task_name row rest (row-Occurs t row h))
  rows-Occurs (u ∷ before) after t rows e =
      let (row, rest, _, k, same) = cons-some u (before ++ t ∷ after) rows e in
      subst (Occurs t.task_name) same
        (Occurs-after t.task_name rest row (rows-Occurs before after t rest k))

  page-Occurs : (name rows : String) → Occurs name rows → Occurs name (table_of rows)
  page-Occurs name rows h = Occurs-after name _ _ (Occurs-before name _ _ h)

  -- If the table of the tasks can be made, the name of each of them stands in its HTML as it is:
  -- nothing is escaped.
  pub tasks_table_html-Occurs :
      (before after : List Task) (t : Task) (html : String)
      → tasks_table_html value_text id_text now (before ++ t ∷ after) ≡ some html
      → Occurs t.task_name html
  unfolding tasks_table_html
  tasks_table_html-Occurs [] after t html e =
      let (rows, h, e1) =
        bind-some (rows_html value_text id_text now (t ∷ after)) (λ r. some (table_of r)) html e in
      subst (Occurs t.task_name) (some-injective _ html e1)
        (page-Occurs t.task_name rows (rows-Occurs [] after t rows h))
  tasks_table_html-Occurs (u ∷ before) after t html e =
      let ts = u ∷ before ++ t ∷ after in
      let (rows, h, e1) =
        bind-some (rows_html value_text id_text now ts) (λ r. some (table_of r)) html e in
      subst (Occurs t.task_name) (some-injective _ html e1)
        (page-Occurs t.task_name rows (rows-Occurs (u ∷ before) after t rows h))

-- The cells of the table are short.
size-append : (s t : String) → size (String.◌++◌ s t) ≡ size s + size t
size-append String.[] t = ap size (append.nil t) ∙ omega arith
size-append (String.◌∷◌ c s) t = ap size (append.cons c s t) ∙ omega (arith, size-append s t)

size-prefix : (n : ℕ) (s : String) → size (prefix n s) ≤ n
size-prefix zero s = omega arith
size-prefix (suc n) String.[] = omega arith
size-prefix (suc n) (String.◌∷◌ c s) = omega (arith, size-prefix n s)

pub size-fmt : (n : ℕ) (o : Option String) → size (fmt n o) ≤ n + 3
unfolding fmt
size-fmt n none = omega arith
size-fmt n (some s) = ground (arith, size-append (prefix n s) "...", size-prefix n s)
