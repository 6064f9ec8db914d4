-- ===== src/Server/Batching/Stopping.antt =====
-- Where the loop of a batch over dictionaries stops with an exception.
use lapinq.Prelude.{
  ℕ, suc, true, false, ◌≡◌, refl, sym, ap, ◌∙◌, Option, none, some, List, [], ◌∷◌, ◌++◌, arith,
  Bool-cases, Option-cases, inl, inr,
}
use lapinq.Json.{Fields}
use lapinq.Storage.Task.{Table}
use lapinq.Storage.Enqueue.{Result, ok, raise}
use lapinq.Storage.Batch.{Item, insert_item}
use lapinq.Storage.Batch.Progress.{inserted, refused, added}
use lapinq.Server.Batching.{look, equals_zero, item_of, after_item, enqueue_dicts}

-- The items before `failing` succeed by themselves and leave the table `us`, and `failing` raises.
pub record Stopped (draw : ℕ → ℕ × ℕ) (n : ℕ) (dicts : List Fields) (ts us : Table) : Type 0 where
  pub before : List Fields
  pub failing : Fields
  pub after : List Fields
  pub ids : List ℕ
  pub split : dicts ≡ before ++ failing ∷ after
  pub went : enqueue_dicts draw n before ts ≡ (some ids, us)
  pub fails : enqueue_dicts draw n (before ++ failing ∷ []) ts ≡ (none, us)

after_item-cases :
    (rest : Table → Option (List ℕ) × Table) (id : ℕ) (vs us : Table)
    → after_item rest (ok id, vs) ≡ (none, us)
    → rest vs ≡ (none, us)
after_item-cases rest id vs us e = go (rest vs) refl
  where
    go : (p : Option (List ℕ) × Table) → rest vs ≡ p → rest vs ≡ (none, us)
    go (none, ws) h = ground arith
    go (some ids, ws) h = absurd (ground arith)

module _ (draw : ℕ → ℕ × ℕ) (n : ℕ) (t : Fields) (ts : Table) where
  skips :
      (rest : List Fields)
      → equals_zero (look "ttl_seconds" t) ≡ true
      → enqueue_dicts draw n (t ∷ rest) ts ≡ enqueue_dicts draw (suc n) rest ts
  unfolding enqueue_dicts
  skips rest z = rw z refl

  is_refused :
      (rest : List Fields)
      → equals_zero (look "ttl_seconds" t) ≡ false
      → item_of t ≡ none
      → enqueue_dicts draw n (t ∷ rest) ts ≡ (none, ts)
  unfolding enqueue_dicts
  is_refused rest z x = rw (z, x) refl

  inserts :
      (rest : List Fields) (item : Item) (p : Result ℕ × Table)
      → equals_zero (look "ttl_seconds" t) ≡ false
      → item_of t ≡ some item
      → insert_item (draw n).0 (draw n).1 item ts ≡ p
      → enqueue_dicts draw n (t ∷ rest) ts ≡ after_item (enqueue_dicts draw (suc n) rest) p
  unfolding enqueue_dicts
  inserts rest item p z x y = rw (z, x, y) refl

  at_once :
      (rest : List Fields) (us : Table)
      → ((ds : List Fields) → enqueue_dicts draw n (t ∷ ds) ts ≡ (none, ts))
      → enqueue_dicts draw n (t ∷ rest) ts ≡ (none, us)
      → Stopped draw n (t ∷ rest) ts us
  unfolding enqueue_dicts
  at_once rest us h e =
      let same : ts ≡ us = ap (λ p. p.1) (sym (h rest) ∙ e) in
      record {
        before = [];
        failing = t;
        after = rest;
        ids = [];
        split = refl;
        went = ap (λ vs. (some [], vs)) same;
        fails = h [] ∙ ap (λ vs. (none, vs)) same;
      }

  after_skip :
      (rest : List Fields) (us : Table)
      → equals_zero (look "ttl_seconds" t) ≡ true
      → Stopped draw (suc n) rest ts us
      → Stopped draw n (t ∷ rest) ts us
  after_skip rest us z s = record {
    before = t ∷ s.before;
    failing = s.failing;
    after = s.after;
    ids = s.ids;
    split = ap (λ ds. t ∷ ds) s.split;
    went = skips s.before z ∙ s.went;
    fails = skips (s.before ++ s.failing ∷ []) z ∙ s.fails;
  }

  after_append :
      (rest : List Fields) (us vs : Table) (id : ℕ)
      → ((ds : List Fields)
          → enqueue_dicts draw n (t ∷ ds) ts
            ≡ after_item (enqueue_dicts draw (suc n) ds) (ok id, vs))
      → Stopped draw (suc n) rest vs us
      → Stopped draw n (t ∷ rest) ts us
  after_append rest us vs id h s = record {
    before = t ∷ s.before;
    failing = s.failing;
    after = s.after;
    ids = id ∷ s.ids;
    split = ap (λ ds. t ∷ ds) s.split;
    went = h s.before ∙ rw s.went refl;
    fails = h (s.before ++ s.failing ∷ []) ∙ rw s.fails refl;
  }

pub enqueue_dicts-Stopped :
    (draw : ℕ → ℕ × ℕ) (n : ℕ) (dicts : List Fields) (ts us : Table)
    → enqueue_dicts draw n dicts ts ≡ (none, us)
    → Stopped draw n dicts ts us
unfolding enqueue_dicts
enqueue_dicts-Stopped draw n [] ts us e = absurd (ground arith)
enqueue_dicts-Stopped draw n (t ∷ rest) ts us e =
    elim (Bool-cases (equals_zero (look "ttl_seconds" t))) [
      | inl z ↦
          after_skip draw n t ts rest us z
            (enqueue_dicts-Stopped draw (suc n) rest ts us (sym (skips draw n t ts rest z) ∙ e))
      | inr z ↦ elim (Option-cases (item_of t)) [
        | inl x ↦ at_once draw n t ts rest us (λ ds. is_refused draw n t ts ds z x) e
        | inr (item, x) ↦ elim (inserted (draw n).0 (draw n).1 item ts) [
          | refused f y ↦
              at_once draw n t ts rest us (λ ds. inserts draw n t ts ds item (raise f, ts) z x y) e
          | added row y ↦
              let vs = ts ++ row ∷ [] in
              let goes = λ (ds : List Fields). inserts draw n t ts ds item (ok row.id, vs) z x y in
              after_append draw n t ts rest us vs row.id goes (
                enqueue_dicts-Stopped draw (suc n) rest vs us (
                  after_item-cases (enqueue_dicts draw (suc n) rest) row.id vs us
                    (sym (goes rest) ∙ e)))
        ]
      ]
    ]
