-- ===== src/SsdLayout/Stored.antt =====
-- serialize, deserialize and incompatibilityWith: what a database that is reopened is checked
-- against. The map is an association list; `at` of a missing key and stoull of what is no number
-- throw, which is `none`.
use epsilon_db.Base.{
  ℕ, ◌≡◌, ◌↔◌, refl, sym, ◌∙◌, Bool, true, false, ◌&&◌, ◌==◌, List, [], ◌∷◌, ◌++◌, Option, none,
  some, if◌then◌else◌, ==-true, ==-eq,
}
use epsilon_db.SsdLayout.{
  SsdLayout, Field, db_start_field, db_size_field, persistant_ru_state_offset_field,
  log_offset_field, log_size_field, log_same_namespace_field, cmp, same_bool, incompatibility_with,
  log_fields,
}

-- The keys of the map are the names of the fields.
unfoldable pub same_field : Field → Field → Bool
same_field db_start_field db_start_field = true
same_field db_size_field db_size_field = true
same_field persistant_ru_state_offset_field persistant_ru_state_offset_field = true
same_field log_offset_field log_offset_field = true
same_field log_size_field log_size_field = true
same_field log_same_namespace_field log_same_namespace_field = true
same_field db_start_field y = false
same_field db_size_field y = false
same_field persistant_ru_state_offset_field y = false
same_field log_offset_field y = false
same_field log_size_field y = false
same_field log_same_namespace_field y = false

unfoldable pub at {ℓ} : {A : Type ℓ} → List (Field × A) → Field → Option A
at [] key = none
at ((k, v) ∷ rest) key = if same_field k key then some v else at rest key

-- std::to_string and std::stoull, and whether a string is "1", on a type of strings.
pub record Printing : Type 1 where
  pub String : Type 0
  pub to_string : ℕ → String
  pub stoull : String → Option ℕ
  pub one_string : String
  pub zero_string : String
  pub is_one : String → Bool

infixl 5 ◌>>=◌
abbrev ◌>>=◌ {ℓ κ} : {A : Type ℓ} {B : Type κ} → Option A → (A → Option B) → Option B
none >>= k = none
some x >>= k = k x

module _ (pr : Printing) where
  unfoldable pub serialize : SsdLayout → List (Field × pr.String)
  serialize l =
      (db_start_field, pr.to_string l.db_start)
      ∷ (db_size_field, pr.to_string l.db_size)
      ∷ (persistant_ru_state_offset_field, pr.to_string l.persistant_ru_state_offset)
      ∷ (log_offset_field, pr.to_string l.log_offset)
      ∷ (log_size_field, pr.to_string l.log_size)
      ∷ (log_same_namespace_field, if l.log_same_namespace then pr.one_string else pr.zero_string)
      ∷ []

  unfoldable pub number_at : List (Field × pr.String) → Field → Option ℕ
  number_at map key = at map key >>= pr.stoull

  unfoldable pub deserialize : List (Field × pr.String) → Option SsdLayout
  deserialize map = do
    db_start ← number_at map db_start_field
    db_size ← number_at map db_size_field
    state ← number_at map persistant_ru_state_offset_field
    log_offset ← number_at map log_offset_field
    log_size ← number_at map log_size_field
    same ← at map log_same_namespace_field
    some (record {
      db_start = db_start;
      db_size = db_size;
      persistant_ru_state_offset = state;
      log_offset = log_offset;
      log_size = log_size;
      log_same_namespace = pr.is_one same;
    })

-- What a printed number is read back as.
pub record PrintingOk (pr : Printing) : Type 0 where
  pub number : (n : ℕ) → pr.stoull (pr.to_string n) ≡ some n
  pub one : pr.is_one pr.one_string ≡ true
  pub zero : pr.is_one pr.zero_string ≡ false

flag :
    (pr : Printing)
    → PrintingOk pr
    → (b : Bool) → pr.is_one (if b then pr.one_string else pr.zero_string) ≡ b
flag pr k true = k.one
flag pr k false = k.zero

deserialize-serialize :
    (pr : Printing) (l : SsdLayout) → PrintingOk pr → deserialize pr (serialize pr l) ≡ some l
unfolding deserialize serialize number_at at same_field
deserialize-serialize pr l k =
    rw
      (
        k.number l.db_start,
        k.number l.db_size,
        k.number l.persistant_ru_state_offset,
        k.number l.log_offset,
        k.number l.log_size,
        flag pr k l.log_same_namespace,
      )
      refl

append-eq-nil : (xs ys : List Field) → xs ++ ys ≡ [] → (xs ≡ []) × (ys ≡ [])
append-eq-nil [] ys h = (refl, h)
append-eq-nil (x ∷ xs) ys h = cc

cmp-eq-nil : (name : Field) (b : Bool) → cmp name b ≡ [] → b ≡ true
unfolding cmp
cmp-eq-nil name true h = refl
cmp-eq-nil name false h = cc

cmp-true : (name : Field) (b : Bool) → b ≡ true → cmp name b ≡ []
unfolding cmp
cmp-true name true h = refl
cmp-true name false h = cc

same_bool-eq : (a b : Bool) → (same_bool a b ≡ true) ↔ (a ≡ b)
unfolding same_bool
same_bool-eq true true = ((λ h. refl), λ h. refl)
same_bool-eq true false = ((λ h. cc), λ h. cc)
same_bool-eq false true = ((λ h. cc), λ h. cc)
same_bool-eq false false = ((λ h. refl), λ h. refl)

-- The layouts agree on everything but a log that is not on the device.
pub record Agree (l p : SsdLayout) : Type 0 where
  pub log_same_namespace : l.log_same_namespace ≡ p.log_same_namespace
  pub db_start : l.db_start ≡ p.db_start
  pub db_size : l.db_size ≡ p.db_size
  pub state_offset : l.persistant_ru_state_offset ≡ p.persistant_ru_state_offset
  pub log : l.log_same_namespace ≡ true → (l.log_offset ≡ p.log_offset) × (l.log_size ≡ p.log_size)

log_fields-nil :
    (l p : SsdLayout)
    → log_fields l p ≡ []
    → (l.log_offset ≡ p.log_offset) × (l.log_size ≡ p.log_size)
unfolding log_fields
log_fields-nil l p h =
    let s = append-eq-nil (cmp log_offset_field (l.log_offset == p.log_offset)) _ h in
    (
      ==-eq l.log_offset p.log_offset (cmp-eq-nil log_offset_field _ s.0),
      ==-eq l.log_size p.log_size (cmp-eq-nil log_size_field _ s.1),
    )

nil-log_fields :
    (l p : SsdLayout) → l.log_offset ≡ p.log_offset → l.log_size ≡ p.log_size → log_fields l p ≡ []
unfolding log_fields
nil-log_fields l p e f =
    rw
      (
        cmp-true log_offset_field (l.log_offset == p.log_offset)
            (==-true l.log_offset p.log_offset e),
        cmp-true log_size_field (l.log_size == p.log_size) (==-true l.log_size p.log_size f),
      )
      refl

if_both : (a b : Bool) (xs : List Field) → a ≡ b → a ≡ true → (if a && b then xs else []) ≡ xs
if_both true true xs e f = refl
if_both true false xs e f = cc
if_both false b xs e f = cc

if_nil : (a b : Bool) (xs : List Field) → (a ≡ true → xs ≡ []) → (if a && b then xs else []) ≡ []
if_nil true true xs h = h refl
if_nil true false xs h = refl
if_nil false b xs h = refl

incompatibility_with-Agree : (l p : SsdLayout) → incompatibility_with l p ≡ [] → Agree l p
unfolding incompatibility_with
incompatibility_with-Agree l p h =
    let s1 =
      append-eq-nil
        (cmp log_same_namespace_field (same_bool l.log_same_namespace p.log_same_namespace)) _ h in
    let same =
      (same_bool-eq l.log_same_namespace p.log_same_namespace).0
        (cmp-eq-nil log_same_namespace_field _ s1.0) in
    let s2 = append-eq-nil (cmp db_start_field (l.db_start == p.db_start)) _ s1.1 in
    let s3 = append-eq-nil (cmp db_size_field (l.db_size == p.db_size)) _ s2.1 in
    let s4 =
      append-eq-nil
        (cmp persistant_ru_state_offset_field
          (l.persistant_ru_state_offset == p.persistant_ru_state_offset))
        _ s3.1 in
    record {
      log_same_namespace = same;
      db_start = ==-eq l.db_start p.db_start (cmp-eq-nil db_start_field _ s2.0);
      db_size = ==-eq l.db_size p.db_size (cmp-eq-nil db_size_field _ s3.0);
      state_offset =
          ==-eq l.persistant_ru_state_offset p.persistant_ru_state_offset
            (cmp-eq-nil persistant_ru_state_offset_field _ s4.0);
      log = λ e.
          log_fields-nil l p (
            sym (if_both l.log_same_namespace p.log_same_namespace (log_fields l p) same e) ∙ s4.1);
    }

Agree-incompatibility_with : (l p : SsdLayout) → Agree l p → incompatibility_with l p ≡ []
unfolding incompatibility_with
Agree-incompatibility_with l p a =
    rw
      (
        cmp-true log_same_namespace_field (same_bool l.log_same_namespace p.log_same_namespace)
            ((same_bool-eq l.log_same_namespace p.log_same_namespace).1 a.log_same_namespace),
        cmp-true db_start_field (l.db_start == p.db_start)
            (==-true l.db_start p.db_start a.db_start),
        cmp-true db_size_field (l.db_size == p.db_size) (==-true l.db_size p.db_size a.db_size),
        cmp-true persistant_ru_state_offset_field
            (l.persistant_ru_state_offset == p.persistant_ru_state_offset)
            (==-true l.persistant_ru_state_offset p.persistant_ru_state_offset a.state_offset),
      )
      (if_nil l.log_same_namespace p.log_same_namespace (log_fields l p)
        (λ e. nil-log_fields l p (a.log e).0 (a.log e).1))

-- A layout that is written down is read back, and a database stored with it opens under a layout,
-- with an empty description, exactly when the two agree on all fields but those of a log that is
-- not on the database's device.
pub incompatibility_with-deserialize :
    (pr : Printing) (l p : SsdLayout)
    → PrintingOk pr
    → (q : SsdLayout) × (deserialize pr (serialize pr p) ≡ some q)
      × ((incompatibility_with l q ≡ []) ↔ Agree l p)
incompatibility_with-deserialize pr l p k = (
  p,
  deserialize-serialize pr p k,
  (incompatibility_with-Agree l p, Agree-incompatibility_with l p),
)
