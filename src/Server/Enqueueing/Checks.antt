-- ===== src/Server/Enqueueing/Checks.antt =====
-- The checks of the handler `enqueue` one by one: none answers with an identifier.
use lapinq.Prelude.{
  ℕ, ◌≡◌, ◌≢◌, refl, String, Bool, true, false, Option, none, some, arith, if◌then◌else◌, ltb,
}
use lapinq.Prelude.Int.{pos, negsuc}
use lapinq.Json.{Json, null, bool, int, float, str, arr, obj, is_truthy}
use lapinq.Server.Enqueueing.{
  Reply, created, refused, crashed, Checked, stops, goes, ◌>>=◌, Readers, as_fields, as_float,
  as_metadata, as_instant, required, as_text, as_text_or_null, as_int4, as_bool_or_null,
}

-- A check that stops answers no identifier; one that goes on has the property.
abbrev pub NoId : Reply → Type 0
NoId r = (k : ℕ) → r ≢ created (some k)

pub data Passes {A : Type 0} (P : A → Type 0) : Checked A → Type 0 where
  stopped : (r : Reply) → NoId r → Passes P (stops r)
  went : (a : A) → P a → Passes P (goes a)

infixr 4 ◌&>◌
pub ◌&>◌ :
    {A B : Type 0} {P : A → Type 0} {Q : B → Type 0} {m : Checked A} {f : A → Checked B}
    → Passes P m
    → ((a : A) → P a → Passes Q (f a))
    → Passes Q (m >>= f)
stopped r h &> k = stopped r h
went a h &> k = k a h

abbrev pub Any : {A : Type 0} → A → Type 0
Any a = Unit

pub refused-NoId : (c : ℕ) (e : String) → NoId (refused c e)
refused-NoId c e k h = ground arith

pub crashed-NoId : NoId crashed
crashed-NoId k h = ground arith

pub none-NoId : NoId (created none)
none-NoId k h = ground arith

pub or_else-Passes :
    {A : Type 0} (r : Reply) (o : Option A)
    → NoId r
    → Passes Any (elim o as (λ x. Checked (Option A)) [ none ↦ stops r | some x ↦ goes (some x) ])
or_else-Passes r none h = stopped r h
or_else-Passes r (some x) h = went _ tt

pub as_float-Passes :
    (readers : Readers) (e : String) (j : Json) → Passes Any (as_float readers e j)
as_float-Passes readers e null = went _ tt
as_float-Passes readers e (bool b) = went _ tt
as_float-Passes readers e (int n) = went _ tt
as_float-Passes readers e (float x) = went _ tt
as_float-Passes readers e (str t) =
    or_else-Passes (refused 400 e) (readers.float_of t) (refused-NoId 400 e)
as_float-Passes readers e (arr x) = stopped _ (refused-NoId 400 e)
as_float-Passes readers e (obj x) = stopped _ (refused-NoId 400 e)

pub as_metadata-Passes : (j : Json) → Passes Any (as_metadata j)
as_metadata-Passes null = went _ tt
as_metadata-Passes (obj x) = went _ tt
as_metadata-Passes (bool b) = stopped _ (refused-NoId 400 "metadata must be a JSON object")
as_metadata-Passes (int n) = stopped _ (refused-NoId 400 "metadata must be a JSON object")
as_metadata-Passes (float n) = stopped _ (refused-NoId 400 "metadata must be a JSON object")
as_metadata-Passes (str n) = stopped _ (refused-NoId 400 "metadata must be a JSON object")
as_metadata-Passes (arr n) = stopped _ (refused-NoId 400 "metadata must be a JSON object")

pub as_instant-Passes : (readers : Readers) (j : Json) → Passes Any (as_instant readers j)
as_instant-Passes readers null = went _ tt
as_instant-Passes readers (str t) =
    or_else-Passes (refused 400 "invalid scheduled_at format") (readers.instant_of t)
      (refused-NoId 400 "invalid scheduled_at format")
as_instant-Passes readers (bool b) = stopped _ (refused-NoId 400 "invalid scheduled_at format")
as_instant-Passes readers (int n) = stopped _ (refused-NoId 400 "invalid scheduled_at format")
as_instant-Passes readers (float n) = stopped _ (refused-NoId 400 "invalid scheduled_at format")
as_instant-Passes readers (arr n) = stopped _ (refused-NoId 400 "invalid scheduled_at format")
as_instant-Passes readers (obj n) = stopped _ (refused-NoId 400 "invalid scheduled_at format")

pub if-Passes :
    {A : Type 0} (P : A → Type 0) (b : Bool) (x y : Checked A)
    → (b ≡ true → Passes P x)
    → (b ≡ false → Passes P y)
    → Passes P (if b then x else y)
if-Passes P true x y h k = h refl
if-Passes P false x y h k = k refl

pub required-Passes : (e : String) (j : Json) → Passes (λ u. is_truthy j ≡ true) (required e j)
required-Passes e j =
    if-Passes (λ u. is_truthy j ≡ true) (is_truthy j) (goes (tt {0})) (stops (refused 400 e))
      (λ h. went _ h) (λ h. stopped _ (refused-NoId 400 e))

pub as_text-Passes : (j : Json) → Passes (λ t. j ≡ str t) (as_text j)
as_text-Passes (str t) = went t refl
as_text-Passes null = stopped _ crashed-NoId
as_text-Passes (bool b) = stopped _ crashed-NoId
as_text-Passes (int n) = stopped _ crashed-NoId
as_text-Passes (float n) = stopped _ crashed-NoId
as_text-Passes (arr n) = stopped _ crashed-NoId
as_text-Passes (obj n) = stopped _ crashed-NoId

pub as_text_or_null-Passes : (j : Json) → Passes Any (as_text_or_null j)
as_text_or_null-Passes (str t) = went _ tt
as_text_or_null-Passes null = went _ tt
as_text_or_null-Passes (bool b) = stopped _ crashed-NoId
as_text_or_null-Passes (int n) = stopped _ crashed-NoId
as_text_or_null-Passes (float n) = stopped _ crashed-NoId
as_text_or_null-Passes (arr n) = stopped _ crashed-NoId
as_text_or_null-Passes (obj n) = stopped _ crashed-NoId

pub as_int4-Passes : (j : Json) → Passes Any (as_int4 j)
as_int4-Passes (int (pos n)) =
    if-Passes Any (ltb n 2_147_483_648) (goes (pos n)) (stops crashed) (λ h. went _ tt)
      (λ h. stopped _ crashed-NoId)
as_int4-Passes (int (negsuc n)) =
    if-Passes Any (ltb n 2_147_483_648) (goes (negsuc n)) (stops crashed) (λ h. went _ tt)
      (λ h. stopped _ crashed-NoId)
as_int4-Passes (bool b) = went _ tt
as_int4-Passes null = stopped _ crashed-NoId
as_int4-Passes (float n) = stopped _ crashed-NoId
as_int4-Passes (str n) = stopped _ crashed-NoId
as_int4-Passes (arr n) = stopped _ crashed-NoId
as_int4-Passes (obj n) = stopped _ crashed-NoId

pub as_bool_or_null-Passes : (j : Json) → Passes Any (as_bool_or_null j)
as_bool_or_null-Passes null = went _ tt
as_bool_or_null-Passes (bool b) = went _ tt
as_bool_or_null-Passes (int n) = stopped _ crashed-NoId
as_bool_or_null-Passes (float n) = stopped _ crashed-NoId
as_bool_or_null-Passes (str n) = stopped _ crashed-NoId
as_bool_or_null-Passes (arr n) = stopped _ crashed-NoId
as_bool_or_null-Passes (obj n) = stopped _ crashed-NoId

pub as_fields-Passes : (j : Json) → Passes Any (as_fields j)
as_fields-Passes (obj n) = went _ tt
as_fields-Passes null = stopped _ crashed-NoId
as_fields-Passes (bool b) = stopped _ crashed-NoId
as_fields-Passes (int n) = stopped _ crashed-NoId
as_fields-Passes (float n) = stopped _ crashed-NoId
as_fields-Passes (str n) = stopped _ crashed-NoId
as_fields-Passes (arr n) = stopped _ crashed-NoId
