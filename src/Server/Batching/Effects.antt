-- ===== src/Server/Batching/Effects.antt =====
-- The loop of the batch over dictionaries has the effect of a batch of items, as far as it gets.
use lapinq.Prelude.{
  ℕ, suc, ◌≤◌, ◌≡◌, refl, ap, subst, zero, true, false, inl, inr, Option, none, some, List, [], ◌∷◌,
  arith, Bool-cases, Option-cases,
}
use mathlib.Core.Option.{some-injective}
use lapinq.Prelude.Int.{ℤ, pos, negsuc}
use lapinq.Prelude.Lists.{length}
use lapinq.Json.{Json, null, bool, int, float, str, arr, obj, Fields}
use lapinq.Storage.Task.{Table}
use lapinq.Storage.Enqueue.{Result, ok, raise, is_zero_ttl}
use lapinq.Storage.Batch.{Given, Item, get_none, insert_item, prepend, enqueue_batch}
use lapinq.Storage.Batch.Progress.{Entry, is_skipped}
use lapinq.Server.Enqueueing.{get, as_text, as_int4}
use lapinq.Server.Batching.{
  look, equals_zero, given_by, passed, no_instant, number_of, flag_of, ◌>>=◌, item_of, after_item,
  enqueue_dicts,
}

kept_zero :
    (o : Option Json) (g : Given ℤ)
    → equals_zero o ≡ false
    → given_by number_of o ≡ some g
    → is_zero_ttl (get_none g) ≡ false
kept_zero none g z e = ground (arith, e)
kept_zero (some null) g z e = ground (arith, e)
kept_zero (some (bool false)) g z e = ground (arith, e)
kept_zero (some (bool true)) g z e = ground (arith, e)
kept_zero (some (int (pos zero))) g z e = ground (arith, e)
kept_zero (some (int (pos (suc n)))) g z e = ground (arith, e)
kept_zero (some (int (negsuc n))) g z e = ground (arith, e)
kept_zero (some (float (pos zero))) g z e = ground (arith, e)
kept_zero (some (float (pos (suc n)))) g z e = ground (arith, e)
kept_zero (some (float (negsuc n))) g z e = ground (arith, e)
kept_zero (some (str t)) g z e = ground (arith, e)
kept_zero (some (arr t)) g z e = ground (arith, e)
kept_zero (some (obj t)) g z e = ground (arith, e)

-- What holds of the value of a chain of checks, if none fails.
data Holds {A : Type 0} (P : A → Type 0) : Option A → Type 0 where
  failed : Holds P none
  held : (a : A) → P a → Holds P (some a)

took : {A : Type 0} (m : Option A) → Holds (λ a. m ≡ some a) m
took none = failed
took (some a) = held a refl

infixr 4 ◌&>◌
◌&>◌ :
    {A B : Type 0} {P : A → Type 0} {Q : B → Type 0} {m : Option A} {f : A → Option B}
    → Holds P m
    → ((a : A) → P a → Holds Q (f a))
    → Holds Q (m >>= f)
failed &> k = failed
held a h &> k = k a h

item_of-Holds :
    (t : Fields)
    → equals_zero (look "ttl_seconds" t) ≡ false
    → Holds (λ item. is_skipped item ≡ false) (item_of t)
unfolding item_of
item_of-Holds t z = took (passed (as_text (get "task_name" t null))) &> λ name a.
    took (given_by (λ j. passed (as_text j)) (look "queue_name" t)) &> λ queue b.
    took (given_by (λ j. passed (as_text j)) (look "module_path" t)) &> λ path c.
    took (given_by no_instant (look "scheduled_at" t)) &> λ at d.
    took (given_by (λ j. passed (as_int4 j)) (look "max_retries" t)) &> λ retries e.
    took (given_by (λ j. passed (as_int4 j)) (look "priority" t)) &> λ priority f.
    took (given_by number_of (look "ttl_seconds" t)) &> λ ttl g.
    took (given_by number_of (look "retry_delay" t)) &> λ delay h.
    took (given_by flag_of (look "retry_backoff" t)) &> λ backoff k.
    took (given_by (λ j. passed (as_text j)) (look "webhook_url" t)) &> λ url l.
    held _ (kept_zero (look "ttl_seconds" t) ttl z g)

-- An item that the loop does not skip has no zero TTL once the driver has taken it.
item_of-is_skipped :
    (t : Fields) (item : Item)
    → equals_zero (look "ttl_seconds" t) ≡ false
    → item_of t ≡ some item
    → is_skipped item ≡ false
item_of-is_skipped t item z e =
    elim (subst (Holds (λ i. is_skipped i ≡ false)) e (item_of-Holds t z)) [ held i h ↦ h ]

-- The dictionaries as far as the driver took them, as items of a batch that has the same effect.
pub record Effect (n : ℕ) (p : Option (List ℕ) × Table) (ts : Table) : Type 0 where
  pub items : List Entry
  pub same_table : (enqueue_batch items ts).1 ≡ p.1
  pub same_ids : (ids : List ℕ) → p.0 ≡ some ids → (enqueue_batch items ts).0 ≡ ok ids
  pub few : (ids : List ℕ) → p.0 ≡ some ids → length ids ≤ n

prepend_ids :
    (id : ℕ) (r : Option (List ℕ)) (q : Result (List ℕ))
    → ((ids : List ℕ) → r ≡ some ids → q ≡ ok ids)
    → (ids : List ℕ)
    → (elim r as (λ x. Option (List ℕ)) [ none ↦ none | some is ↦ some (id ∷ is) ]) ≡ some ids
    → prepend id q ≡ ok ids
prepend_ids id none q h ids e = absurd (ground (arith, e))
prepend_ids id (some is) q h ids e = rw (h is refl) (ap ok (some-injective (id ∷ is) ids e))

few_more :
    (n id : ℕ) (r : Option (List ℕ))
    → ((ids : List ℕ) → r ≡ some ids → length ids ≤ n)
    → (ids : List ℕ)
    → (elim r as (λ x. Option (List ℕ)) [ none ↦ none | some is ↦ some (id ∷ is) ]) ≡ some ids
    → length ids ≤ suc n
few_more n id none h ids e = absurd (ground (arith, e))
few_more n id (some is) h ids e =
    subst (λ x. length x ≤ suc n) (some-injective (id ∷ is) ids e) (omega (arith, h is refl))

inserted-Effect :
    (n : ℕ) (draw : ℕ × ℕ) (item : Item) (rest : Table → Option (List ℕ) × Table) (ts : Table)
    → is_skipped item ≡ false
    → ((us : Table) → Effect n (rest us) us)
    → Effect (suc n) (after_item rest (insert_item draw.0 draw.1 item ts)) ts
unfolding enqueue_batch
inserted-Effect n draw item rest ts z f = go (insert_item draw.0 draw.1 item ts) refl
  where
    go :
        (p : Result ℕ × Table)
        → insert_item draw.0 draw.1 item ts ≡ p
        → Effect (suc n) (after_item rest p) ts
    go (raise x, us) e = record {
      items = (draw.0, draw.1, item) ∷ [];
      same_table = rw (z, e) refl;
      same_ids = λ ids h. absurd (ground (arith, h));
      few = λ ids h. absurd (ground (arith, h));
    }
    go (ok id, us) e = record {
      items = (draw.0, draw.1, item) ∷ (f us).items;
      same_table = rw (z, e) (f us).same_table;
      same_ids = λ ids h. rw (z, e) (prepend_ids id (rest us).0 _ (f us).same_ids ids h);
      few = λ ids h. few_more n id (rest us).0 (f us).few ids h;
    }

pub enqueue_dicts-Effect :
    (draw : ℕ → ℕ × ℕ) (n : ℕ) (dicts : List Fields) (ts : Table)
    → Effect (length dicts) (enqueue_dicts draw n dicts ts) ts
unfolding enqueue_dicts enqueue_batch
enqueue_dicts-Effect draw n [] ts = record {
  items = [];
  same_table = refl;
  same_ids = λ ids h. ap ok (some-injective [] ids h);
  few = λ ids h. subst (λ is. length is ≤ 0) (some-injective [] ids h) (omega arith);
}
enqueue_dicts-Effect draw n (t ∷ rest) ts = elim (Bool-cases (equals_zero (look "ttl_seconds" t))) [
  | inl z ↦ rw z (skipping (enqueue_dicts-Effect draw (suc n) rest ts))
  | inr z ↦ elim (Option-cases (item_of t)) [
    | inl e ↦
        rw (z, e)
          (record {
            items = [];
            same_table = refl;
            same_ids = λ ids h. absurd (ground (arith, h));
            few = λ ids h. absurd (ground (arith, h));
          })
    | inr (item, e) ↦
        rw (z, e)
          (inserted-Effect (length rest) (draw n) item (enqueue_dicts draw (suc n) rest) ts
            (item_of-is_skipped t item z e) (λ us. enqueue_dicts-Effect draw (suc n) rest us))
  ]
]
  where
    skipping :
        {m : ℕ} {p : Option (List ℕ) × Table} {us : Table} → Effect m p us → Effect (suc m) p us
    skipping f = record {
      items = f.items;
      same_table = f.same_table;
      same_ids = f.same_ids;
      few = λ ids h. omega (arith, f.few ids h);
    }
