-- ===== src/Storage/Migrations/Turns.antt =====
-- The loop of the migrations: a loop that was cut short at any statement is taken up by a second one.
use lapinq.Prelude.{
  ℕ, zero, suc, ◌*◌, ◌≤◌, ◌<◌, ◌≡◌, refl, sym, ap, ◌∙◌, subst, String, Bool, true, false, List, [],
  ◌∷◌, ◌++◌, arith, ltb, ◌==◌, str_eq, eq_iff, inl, inr, Bool-cases, if◌then◌else◌,
}
use lapinq.Prelude.Lists.{any, length}
use lapinq.Storage.Migrations.{
  Schema, Database, Migration, add_columns, set_check, create_users, add_column, add_all, migrated,
  execute, rows_of, greatest, current, add_version, mark_version, apply_from,
}

-- The loop when the connection holds.
pub complete : ℕ → ℕ → List Migration → Database → Database
complete from n [] db = db
complete from n (m ∷ ms) db =
    let skipped = complete from (suc n) ms db in
    let done = complete from (suc n) ms (mark_version n (execute m db)) in
    if ltb from n then done else skipped

pub enough :
    (left from n : ℕ) (ms : List Migration) (db : Database)
    → length ms * 2 ≤ left
    → apply_from left from n ms db ≡ complete from n ms db
unfolding apply_from complete
enough left from n [] db h = refl
enough zero from n (m ∷ ms) db h = absurd (omega arith)
enough (suc zero) from n (m ∷ ms) db h = absurd (omega arith)
enough (suc (suc left)) from n (m ∷ ms) db h = elim (Bool-cases (ltb from n)) [
  | inl b ↦ rw b (enough left from (suc n) ms (mark_version n (execute m db)) (omega arith))
  | inr b ↦ rw b (enough (suc (suc left)) from (suc n) ms db (omega arith))
]

-- A migration that has run may run again.
any-append : (f : String → Bool) (xs ys : List String) → any f xs ≡ true → any f (xs ++ ys) ≡ true
any-append f [] ys h = absurd (ground arith)
any-append f (x ∷ xs) ys h = ground (arith, any-append f xs ys)

any-snoc : (x : String) (xs : List String) → any (str_eq x) (xs ++ x ∷ []) ≡ true
any-snoc x [] = ground (arith, eq_iff x x)
any-snoc x (y ∷ xs) = ground (arith, any-snoc x xs)

has-add_column :
    (x y : String) (xs : List String)
    → any (str_eq x) xs ≡ true
    → any (str_eq x) (add_column y xs) ≡ true
has-add_column x y xs h = ground (arith, any-append (str_eq x) xs (y ∷ []))

has-add_all :
    (x : String) (ys xs : List String)
    → any (str_eq x) xs ≡ true
    → any (str_eq x) (add_all ys xs) ≡ true
has-add_all x [] xs h = h
has-add_all x (y ∷ ys) xs h = has-add_all x ys (add_column y xs) (has-add_column x y xs h)

has_column : (x : String) (xs : List String) → any (str_eq x) (add_column x xs) ≡ true
has_column x xs = ground (arith, any-snoc x xs)

-- Columns that are there are not added.
add_all-add_all : (ys xs zs : List String) → zs ≡ add_all ys xs → add_all ys zs ≡ zs
add_all-add_all [] xs zs e = refl
add_all-add_all (y ∷ ys) xs zs e =
    let there : any (str_eq y) zs ≡ true =
      ap (any (str_eq y)) e ∙ has-add_all y ys (add_column y xs) (has_column y xs) in
    rw there (add_all-add_all ys (add_column y xs) zs e)

migrated-migrated : (m : Migration) (s : Schema) → migrated m (migrated m s) ≡ migrated m s
migrated-migrated (add_columns names) s =
    ap (λ c. record s { columns = c })
      (add_all-add_all names s.columns (add_all names s.columns) refl)
migrated-migrated (set_check statuses) s = refl
migrated-migrated create_users s = refl

execute-execute : (m : Migration) (db : Database) → execute m (execute m db) ≡ execute m db
execute-execute m db = ap (λ s. record db { schema = s }) (migrated-migrated m db.schema)

-- The greatest version, when versions are added.
greatest-append : (rows : List ℕ) (v : ℕ) → greatest rows ≤ greatest (rows ++ v ∷ [])
greatest-append [] v = omega arith
greatest-append (w ∷ rows) v = ground (arith, greatest-append rows v)

greatest-snoc : (rows : List ℕ) (v : ℕ) → greatest rows ≤ v → greatest (rows ++ v ∷ []) ≡ v
greatest-snoc [] v h = ground arith
greatest-snoc (w ∷ rows) v h = ground (arith, greatest-snoc rows v)

absent_above : (rows : List ℕ) (v : ℕ) → greatest rows < v → any (λ w. w == v) rows ≡ false
absent_above [] v h = refl
absent_above (w ∷ rows) v h = ground (arith, absent_above rows v)

greatest-add_version :
    (rows : List ℕ) (v : ℕ) → greatest rows < v → greatest (add_version v rows) ≡ v
greatest-add_version rows v h = rw (absent_above rows v h) (greatest-snoc rows v (omega arith))

pub grows : (rows : List ℕ) (v : ℕ) → greatest rows ≤ greatest (add_version v rows)
grows rows v = ground (arith, greatest-append rows v)

current-apply_from :
    (left from n : ℕ) (ms : List Migration) (db : Database)
    → current db ≤ current (apply_from left from n ms db)
unfolding apply_from
current-apply_from left from n [] db = omega arith
current-apply_from zero from n (m ∷ ms) db = omega arith
current-apply_from (suc zero) from n (m ∷ ms) db = elim (Bool-cases (ltb from n)) [
  | inl b ↦ rw b (omega arith)
  | inr b ↦ rw b (current-apply_from 1 from (suc n) ms db)
]
current-apply_from (suc (suc left)) from n (m ∷ ms) db = elim (Bool-cases (ltb from n)) [
  | inl b ↦ rw b (
      omega (
        arith,
        grows (rows_of db.versions) n,
        current-apply_from left from (suc n) ms (mark_version n (execute m db)),
      ))
  | inr b ↦ rw b (current-apply_from (suc (suc left)) from (suc n) ms db)
]

-- Which version was read does not matter once the loop is past it.
complete-past :
    (from to n : ℕ) (ms : List Migration) (db : Database)
    → from < n
    → to < n
    → complete from n ms db ≡ complete to n ms db
unfolding complete
complete-past from to n [] db h k = refl
complete-past from to n (m ∷ ms) db h k =
    ground (arith, complete-past from to (suc n) ms (mark_version n (execute m db)))

-- One turn of the loop.
module _ (from n : ℕ) (m : Migration) (ms : List Migration) (db : Database) where
  abbrev turned : Database
  turned = mark_version n (execute m db)

  apply-one : from < n → apply_from 1 from n (m ∷ ms) db ≡ execute m db
  unfolding apply_from
  apply-one h = ground arith

  apply-two :
      (left : ℕ)
      → from < n
      → apply_from (suc (suc left)) from n (m ∷ ms) db ≡ apply_from left from (suc n) ms turned
  unfolding apply_from
  apply-two left h = ground arith

  apply-skips :
      (left : ℕ)
      → n ≤ from
      → apply_from (suc left) from n (m ∷ ms) db ≡ apply_from (suc left) from (suc n) ms db
  unfolding apply_from
  apply-skips zero h = ground arith
  apply-skips (suc left) h = ground arith

  complete-runs : from < n → complete from n (m ∷ ms) db ≡ complete from (suc n) ms turned
  unfolding complete
  complete-runs h = ground arith

  complete-skips : n ≤ from → complete from n (m ∷ ms) db ≡ complete from (suc n) ms db
  unfolding complete
  complete-skips h = ground arith

-- A run that starts again where a loop was cut short.
abbrev pub again : ℕ → List Migration → Database → Database
again n ms db = complete (current db) n ms db

resumed_past :
    (left from p : ℕ) (ms : List Migration) (db : Database)
    → from < suc p
    → current db ≡ p
    → again (suc p) ms (apply_from left from (suc p) ms db) ≡ complete from (suc p) ms db
unfolding apply_from complete
resumed_past left from p [] db h e = refl
resumed_past zero from p (m ∷ ms) db h e =
    complete-past (current db) from (suc p) (m ∷ ms) db (omega arith) h
resumed_past (suc zero) from p (m ∷ ms) db h e =
    ap (again (suc p) (m ∷ ms)) (apply-one from (suc p) m ms db h)
    ∙ complete-runs (current db) (suc p) m ms (execute m db) (omega arith)
    ∙ ap (complete (current db) (suc (suc p)) ms) (ap (mark_version (suc p)) (execute-execute m db))
    ∙ complete-past (current db) from (suc (suc p)) ms _ (omega arith) (omega arith)
    ∙ sym (complete-runs from (suc p) m ms db h)
resumed_past (suc (suc left)) from p (m ∷ ms) db h e =
    let next = mark_version (suc p) (execute m db) in
    let there : current next ≡ suc p =
      greatest-add_version (rows_of db.versions) (suc p) (omega (arith, e)) in
    let later = apply_from left from (suc (suc p)) ms next in
    ap (again (suc p) (m ∷ ms)) (apply-two from (suc p) m ms db left h)
    ∙ complete-skips (current later) (suc p) m ms later
        (omega (arith, current-apply_from left from (suc (suc p)) ms next, there))
    ∙ resumed_past left from (suc p) ms next (omega arith) there
    ∙ sym (complete-runs from (suc p) m ms db h)

pub resumed :
    (left from n : ℕ) (ms : List Migration) (db : Database)
    → n ≤ suc from
    → current db ≡ from
    → again n ms (apply_from left from n ms db) ≡ complete from n ms db
unfolding apply_from complete
resumed left from n [] db h e = refl
resumed zero from n (m ∷ ms) db h e = ap (λ c. complete c n (m ∷ ms) db) e
resumed (suc left) from n (m ∷ ms) db h e = elim (Bool-cases (ltb from n)) [
  | inl b ↦
      let same : n ≡ suc from = ground arith in
      subst
        (λ k.
          again k (m ∷ ms) (apply_from (suc left) from k (m ∷ ms) db) ≡ complete from k (m ∷ ms) db)
        (sym same) (resumed_past (suc left) from from (m ∷ ms) db (omega arith) e)
  | inr b ↦
      let low : n ≤ from = ground arith in
      let later = apply_from (suc left) from (suc n) ms db in
      ap (again n (m ∷ ms)) (apply-skips from n m ms db left low)
      ∙ complete-skips (current later) n m ms later
          (omega (arith, current-apply_from (suc left) from (suc n) ms db, e))
      ∙ resumed (suc left) from (suc n) ms db (omega arith) e
      ∙ sym (complete-skips from n m ms db low)
]
