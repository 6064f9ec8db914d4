-- ===== src/Storage/Migrations/Resuming.antt =====
-- Migrations that were cut short are taken up again, and a second run changes nothing.
use lapinq.Prelude.{
  ℕ, zero, suc, ◌≤◌, ◌≡◌, refl, sym, ap, ◌∙◌, Bool, true, some, List, [], ◌∷◌, ◌++◌, arith, ltb,
  ◌==◌, ==_iff, inl, inr, Bool-cases,
}
use lapinq.Prelude.Lists.{any}
use lapinq.Storage.Migrations.{
  Database, Migration, migrations, execute, rows_of, create_versions, greatest, current,
  add_version, mark_version, apply_from, prepared, apply_migrations,
}
use lapinq.Storage.Migrations.Turns.{complete, enough, resumed, grows}

abbrev has_zero : List ℕ → Bool
has_zero = any (λ w. w == 0)

-- The version 0 is there, unless there is a later one.
abbrev IsMarked : List ℕ → Type 0
IsMarked rows = greatest rows ≡ 0 → has_zero rows ≡ true

has_zero-append : (rows ys : List ℕ) → has_zero rows ≡ true → has_zero (rows ++ ys) ≡ true
has_zero-append [] ys h = absurd (ground arith)
has_zero-append (w ∷ rows) ys h = ground (arith, has_zero-append rows ys)

has_zero-snoc : (rows : List ℕ) → has_zero (rows ++ 0 ∷ []) ≡ true
has_zero-snoc [] = refl
has_zero-snoc (w ∷ rows) = ground (arith, has_zero-snoc rows)

add_version-IsMarked : (v : ℕ) (rows : List ℕ) → IsMarked rows → IsMarked (add_version v rows)
add_version-IsMarked v rows h e =
    let before : greatest rows ≡ 0 = omega (arith, grows rows v, e) in
    ground (arith, h before, has_zero-append rows (v ∷ []))

zero-IsMarked : (rows : List ℕ) → IsMarked (add_version 0 rows)
zero-IsMarked rows e = ground (arith, has_zero-snoc rows)

-- The table of versions is there and marked.
record IsReady (db : Database) : Type 0 where
  rows : List ℕ
  there : db.versions ≡ some rows
  marked : IsMarked rows

turn-IsReady :
    (n : ℕ) (m : Migration) (db : Database) → IsReady db → IsReady (mark_version n (execute m db))
turn-IsReady n m db r = record {
  rows = add_version n r.rows;
  there = ap (λ v. some (add_version n (rows_of v))) r.there;
  marked = add_version-IsMarked n r.rows r.marked;
}

prepared-IsReady : (db : Database) → IsReady (prepared db)
prepared-IsReady db = elim (Bool-cases (current db == 0)) [
  | inl b ↦ rw b (record {
    rows = add_version 0 (rows_of db.versions);
    there = refl;
    marked = zero-IsMarked (rows_of db.versions);
  })
  | inr b ↦ rw b (record {
    rows = rows_of db.versions;
    there = refl;
    marked = λ e. absurd (ground (arith, b, e));
  })
]

apply_from-IsReady :
    (left from n : ℕ) (ms : List Migration) (db : Database)
    → IsReady db
    → IsReady (apply_from left from n ms db)
unfolding apply_from
apply_from-IsReady left from n [] db r = r
apply_from-IsReady zero from n (m ∷ ms) db r = r
apply_from-IsReady (suc zero) from n (m ∷ ms) db r = elim (Bool-cases (ltb from n)) [
  | inl b ↦ rw b (record { rows = r.rows; there = r.there; marked = r.marked })
  | inr b ↦ rw b (apply_from-IsReady 1 from (suc n) ms db r)
]
apply_from-IsReady (suc (suc left)) from n (m ∷ ms) db r = elim (Bool-cases (ltb from n)) [
  | inl b ↦ rw b (apply_from-IsReady left from (suc n) ms _ (turn-IsReady n m db r))
  | inr b ↦ rw b (apply_from-IsReady (suc (suc left)) from (suc n) ms db r)
]

-- On such a database the statements before the loop change nothing.
create-ready : (db : Database) → IsReady db → create_versions db ≡ db
create-ready db r =
    ap (λ v. record db { versions = v }) (ap (λ v. some (rows_of v)) r.there ∙ sym r.there)

prepared-ready : (db : Database) → IsReady db → prepared db ≡ db
prepared-ready db r = elim (Bool-cases (current db == 0)) [
  | inr b ↦ rw b (create-ready db r)
  | inl b ↦
      let low : greatest r.rows ≡ 0 =
        sym (ap (λ v. greatest (rows_of v)) r.there) ∙ (==_iff (current db) 0).0 b in
      let zeroed : has_zero (rows_of db.versions) ≡ true =
        ap (λ v. has_zero (rows_of v)) r.there ∙ r.marked low in
      rw (b, zeroed) (create-ready db r)
]

-- Twelve statements are enough: two before the loop and two for each migration.
whole :
    (n : ℕ) (db : Database)
    → 12 ≤ n
    → apply_migrations n db ≡ complete (current (create_versions db)) 1 migrations (prepared db)
unfolding apply_migrations
whole zero db h = absurd (omega arith)
whole (suc zero) db h = absurd (omega arith)
whole (suc (suc left)) db h =
    enough left (current (create_versions db)) 1 migrations (prepared db) (omega arith)

current-prepared : (db : Database) → current (prepared db) ≡ current (create_versions db)
current-prepared db = elim (Bool-cases (current db == 0)) [
  | inr b ↦ rw b refl
  | inl b ↦ rw b (added (rows_of db.versions))
]
  where
    added : (rows : List ℕ) → greatest (add_version 0 rows) ≡ greatest rows
    added rows = ground (arith, unraised rows)
      where
        unraised : (us : List ℕ) → greatest (us ++ 0 ∷ []) ≡ greatest us
        unraised [] = refl
        unraised (u ∷ us) = ground (arith, unraised us)

-- Whatever the database is like and after whichever statement the connection was lost, a run of
-- the migrations that is then allowed at least twelve statements leaves the same schema and the
-- same version rows as one run without the interruption; so a second whole run changes nothing.
pub apply_migrations-resumes :
    (k n : ℕ) (db : Database)
    → 12 ≤ n
    → apply_migrations n (apply_migrations k db) ≡ apply_migrations n db
unfolding apply_migrations
apply_migrations-resumes zero n db h = refl
apply_migrations-resumes (suc zero) n db h = whole n (create_versions db) h ∙ sym (whole n db h)
apply_migrations-resumes (suc (suc left)) n db h =
    let from = current (create_versions db) in
    let cut = apply_from left from 1 migrations (prepared db) in
    let ready = apply_from-IsReady left from 1 migrations (prepared db) (prepared-IsReady db) in
    whole n cut h
    ∙ ap (λ d. complete (current d) 1 migrations (prepared cut)) (create-ready cut ready)
    ∙ ap (complete (current cut) 1 migrations) (prepared-ready cut ready)
    ∙ resumed left from 1 migrations (prepared db) (omega arith) (current-prepared db)
    ∙ sym (whole n db h)
