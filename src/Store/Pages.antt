-- ===== src/Store/Pages.antt =====
-- What a page of ListOperations holds (src/internal/agent/repository/operation_store.go).
use wiregate.Prelude.{
  List, All, map, length, take, bind-success, reject, [], ◌∷◌, success, none, some, inl, inr, ◌⊎◌,
  ◌<◌, Option, String, str_eq, Bool-cases, ap, sym, ℕ, Bool, true, false, ◌≡◌, ltb, subst, arith,
  refl, ◌||◌, ◌&&◌, ◌==◌, Fallible, ◌≤◌,
}
use wiregate.Store.Tables.{OperationRow, is_on, Store, StoreError}
use wiregate.Store.View.{str_eq-eq, str_eq_refl}
use wiregate.Operation.State.{State, same_state, eq-same_state, same_state-eq}
use wiregate.Stdlib.Texts.{text_before, text_before_trans, text_before_asym}
use wiregate.Store.Reads.{
  is_empty, Page, newer, StoredRecord, list_operations, is_listed, operation_steps, needs_id,
}
use wiregate.Stdlib.Sort.{sort_by}
use wiregate.Stdlib.Sorted.{
  Ordered, Follows, sort_by-Ordered, take-All, sort_by-All, All-implies, rows_where-All,
  take-Ordered, length-take_le, All-rows_where, All-sort_by, take-rest,
}
use wiregate.Stdlib.Rows.{rows_where}

-- The second operation is not newer than the first, or as new with an identifier that is not after
-- that of the first.
pub NotNewer : OperationRow → OperationRow → Type 0
NotNewer a b =
    (b.created_at_ms < a.created_at_ms)
    ⊎ ((b.created_at_ms ≡ a.created_at_ms) × (text_before a.id b.id ≡ false))

NotNewer-trans : (a b c : OperationRow) → NotNewer a b → NotNewer b c → NotNewer a c
unfolding NotNewer
NotNewer-trans a b c (inl h) (inl k) = inl (omega (arith, h, k))
NotNewer-trans a b c (inl h) (inr (k, _)) = inl (omega (arith, h, k))
NotNewer-trans a b c (inr (h, _)) (inl k) = inl (omega (arith, h, k))
NotNewer-trans a b c (inr (h, x)) (inr (k, y)) =
    inr (omega (arith, h, k), text_before_trans c.id b.id a.id y x)

time_newer :
    (a b : ℕ) (t : Bool) → ltb b a || (a == b && t) ≡ true → (b < a) ⊎ ((b ≡ a) × (t ≡ true))
time_newer a b t h = ground arith

time_older :
    (a b : ℕ) (t : Bool) → ltb b a || (a == b && t) ≡ false → (a < b) ⊎ ((a ≡ b) × (t ≡ false))
time_older a b t h = ground arith

newer-NotNewer : (a b : OperationRow) → newer a b ≡ true → NotNewer a b
unfolding newer NotNewer
newer-NotNewer a b h = elim (time_newer a.created_at_ms b.created_at_ms (text_before b.id a.id) h) [
  | inl l ↦ inl l
  | inr (e, t) ↦ inr (e, text_before_asym b.id a.id t)
]

older-NotNewer : (a b : OperationRow) → newer a b ≡ false → NotNewer b a
unfolding newer NotNewer
older-NotNewer a b h = time_older a.created_at_ms b.created_at_ms (text_before b.id a.id) h

-- The filters of a page on a row; an empty name, no state and no time ask for nothing.
pub OnInterface : String → OperationRow → Type 0
OnInterface name r = (name ≡ "") ⊎ (r.interface_id ≡ some name)

pub InState : Option State → State → Type 0
InState none state = Unit
InState (some wanted) state = state ≡ wanted

-- Earlier than the cursor, or at its time with an identifier before that of the cursor; the time 0
-- asks for nothing.
pub IsOlder : Option ℕ → String → OperationRow → Type 0
IsOlder none id r = Unit
IsOlder (some ms) id r =
    (ms ≡ 0) ⊎ ((r.created_at_ms < ms) ⊎ ((r.created_at_ms ≡ ms) × (text_before r.id id ≡ true)))

pub record Matches (p : Page) (r : OperationRow) : Type 0 where
  pub interface : OnInterface p.on_interface r
  pub state : InState p.in_state r.state
  pub older : IsOlder p.before_ms p.before_id r

or_left : (a b : Bool) → a ≡ true → a || b ≡ true
or_left a b h = ground arith

or_right : (a b : Bool) → b ≡ true → a || b ≡ true
or_right a b h = ground arith

on_row :
    (name : String) (o : Option String)
    → (elim o [ none ↦ false | some i ↦ str_eq i name ]) ≡ true
    → o ≡ some name
on_row name none h = cc
on_row name (some i) h = ap some (str_eq-eq i name h)

accepted-OnInterface :
    (name : String) (r : OperationRow) → is_empty name || is_on name r ≡ true → OnInterface name r
unfolding OnInterface
accepted-OnInterface name r h = elim (Bool-cases (is_empty name)) [
  | inl e ↦ inl (str_eq-eq name "" e)
  | inr e ↦ inr (on_row name r.interface_id (rw e at h))
]

row_is_on : (name : String) (r : OperationRow) → r.interface_id ≡ some name → is_on name r ≡ true
row_is_on name r h = rw h (str_eq_refl name)

OnInterface-accepted :
    (name : String) (r : OperationRow) → OnInterface name r → is_empty name || is_on name r ≡ true
unfolding OnInterface
OnInterface-accepted name r (inl e) = or_left _ _ (subst (λ s. is_empty s ≡ true) (sym e) refl)
OnInterface-accepted name r (inr e) = or_right (is_empty name) (is_on name r) (row_is_on name r e)

older_cases :
    (ms n : ℕ) (t : Bool)
    → ms == 0 || ltb n ms || (n == ms && t) ≡ true
    → (ms ≡ 0) ⊎ ((n < ms) ⊎ ((n ≡ ms) × (t ≡ true)))
older_cases ms n t h = ground arith

cases_older :
    (ms n : ℕ) (t : Bool)
    → (ms ≡ 0) ⊎ ((n < ms) ⊎ ((n ≡ ms) × (t ≡ true)))
    → ms == 0 || ltb n ms || (n == ms && t) ≡ true
cases_older ms n t h = ground arith

-- The two tests of `is_listed` on an option.
abbrev in_state : Option State → State → Bool
in_state o state = elim o [ none ↦ true | some st ↦ same_state state st ]

abbrev is_older : Option ℕ → String → OperationRow → Bool
is_older o id r = elim o [
  | none ↦ true
  | some ms ↦ ms == 0 || ltb r.created_at_ms ms || (r.created_at_ms == ms && text_before r.id id)
]

state-InState : (o : Option State) (state : State) → in_state o state ≡ true → InState o state
unfolding InState
state-InState none state h = tt
state-InState (some st) state h = same_state-eq state st h

InState-state : (o : Option State) (state : State) → InState o state → in_state o state ≡ true
unfolding InState
InState-state none state h = refl
InState-state (some st) state h = eq-same_state state st h

cursor-IsOlder :
    (o : Option ℕ) (id : String) (r : OperationRow) → is_older o id r ≡ true → IsOlder o id r
unfolding IsOlder
cursor-IsOlder none id r h = tt
cursor-IsOlder (some ms) id r h = older_cases ms r.created_at_ms (text_before r.id id) h

IsOlder-older :
    (o : Option ℕ) (id : String) (r : OperationRow) → IsOlder o id r → is_older o id r ≡ true
unfolding IsOlder
IsOlder-older none id r h = refl
IsOlder-older (some ms) id r h = cases_older ms r.created_at_ms (text_before r.id id) h

three : (a b c : Bool) → a && b && c ≡ true → (a ≡ true) × (b ≡ true) × (c ≡ true)
three a b c h = ground arith

all_three : (a b c : Bool) → a ≡ true → b ≡ true → c ≡ true → a && b && c ≡ true
all_three a b c h k l = ground arith

listed-Matches : (p : Page) (r : OperationRow) → is_listed p r ≡ true → Matches p r
unfolding is_listed
listed-Matches p r h =
    let (a, b, c) =
      three (is_empty p.on_interface || is_on p.on_interface r) (in_state p.in_state r.state)
        (is_older p.before_ms p.before_id r) h in
    record {
      interface = accepted-OnInterface p.on_interface r a;
      state = state-InState p.in_state r.state b;
      older = cursor-IsOlder p.before_ms p.before_id r c;
    }

Matches-listed : (p : Page) (r : OperationRow) → Matches p r → is_listed p r ≡ true
unfolding is_listed
Matches-listed p r m =
    all_three (is_empty p.on_interface || is_on p.on_interface r) (in_state p.in_state r.state)
      (is_older p.before_ms p.before_id r) (OnInterface-accepted p.on_interface r m.interface)
      (InState-state p.in_state r.state m.state) (IsOlder-older p.before_ms p.before_id r m.older)

abbrev listed : Page → Store → List OperationRow
unfolding is_listed newer sort_by
listed p s = sort_by newer (rows_where (is_listed p) s.operations)

abbrev filled : Store → OperationRow → StoredRecord
filled s r = record { row = r; record_steps = operation_steps r.id s.steps }

-- A page has rows that match, in order, as many as were asked for at most. A row of the table that
-- matches is among them, told by any test that all of them pass, or the page is full of rows that
-- it is not newer than.
pub record IsPage (p : Page) (s : Store) (rows : List OperationRow) : Type 0 where
  pub fits : All (Matches p) rows
  pub in_order : Ordered NotNewer rows
  pub bounded : length rows ≤ p.page_size
  pub complete :
      (test : OperationRow → Bool)
      → All (λ r. test r ≡ true) rows
      → All (λ r. Matches p r → (test r ≡ true) ⊎ Follows NotNewer p.page_size rows r) s.operations

page-IsPage : (p : Page) (s : Store) → IsPage p s (take p.page_size (listed p s))
unfolding is_listed newer sort_by
page-IsPage p s =
    let rows = rows_where (is_listed p) s.operations in
    let sorted : Ordered NotNewer (listed p s) =
      sort_by-Ordered newer NotNewer NotNewer-trans newer-NotNewer older-NotNewer rows in
    record {
      fits = take-All (Matches p) p.page_size (listed p s) (
          sort_by-All newer (Matches p) rows (
            All-implies (λ r. is_listed p r ≡ true) (Matches p) rows (listed-Matches p)
              (rows_where-All (is_listed p) s.operations)));
      in_order = take-Ordered NotNewer p.page_size (listed p s) sorted;
      bounded = length-take_le p.page_size (listed p s);
      complete = λ test all.
          let Q : OperationRow → Type 0 =
            λ r. (test r ≡ true) ⊎ Follows NotNewer p.page_size (take p.page_size (listed p s)) r in
          All-implies (λ r. is_listed p r ≡ true → Q r) (λ r. Matches p r → Q r) s.operations
            (λ r f m. f (Matches-listed p r m))
            (All-rows_where (is_listed p) Q s.operations (
              All-sort_by newer Q rows
                (take-rest NotNewer (λ r. test r ≡ true) p.page_size (listed p s) sorted all)));
    }

rows-filled : (s : Store) (rs : List OperationRow) → map (λ q. q.row) (map (filled s) rs) ≡ rs
rows-filled s [] = refl
rows-filled s (r ∷ rs) = ap (λ x. r ∷ x) (rows-filled s rs)

steps-filled :
    (s : Store) (rs : List OperationRow)
    → All (λ q. q.record_steps ≡ operation_steps q.row.id s.steps) (map (filled s) rs)
steps-filled s [] = tt
steps-filled s (r ∷ rs) = (refl, steps-filled s rs)

page_eq :
    (rs qs : List StoredRecord)
    → ◌≡◌ {A = Fallible StoreError (List StoredRecord)} (success rs) (success qs)
    → rs ≡ qs
page_eq rs qs h = cc

abbrev rows_of : List StoredRecord → List OperationRow
rows_of rs = map (λ q. q.row) rs

-- A page that ListOperations returns has operations of the interface and the state that were asked
-- for, older than the cursor, from the newest to the oldest and by falling identifiers at one time,
-- at most as many as were asked for, each with its steps; an operation of the table that meets the
-- conditions is missing only if the page is full of operations that it is not newer than.
pub list_operations-IsPage :
    (p : Page) (s : Store) (rs : List StoredRecord)
    → list_operations p s ≡ success rs
    → IsPage p s (rows_of rs) × All (λ q. q.record_steps ≡ operation_steps q.row.id s.steps) rs
unfolding list_operations is_listed newer sort_by
list_operations-IsPage p s rs h =
    let (_, _, h1) =
      bind-success (reject (ltb p.page_size 1 || ltb 201 p.page_size) StoreError.invalid_page) _ rs
        h in
    let (_, _, h2) = bind-success (reject (needs_id p) StoreError.cursor_without_id) _ rs h1 in
    let rows = take p.page_size (listed p s) in
    subst
      (λ qs.
        IsPage p s (rows_of qs) × All (λ q. q.record_steps ≡ operation_steps q.row.id s.steps) qs)
      (page_eq (map (filled s) rows) rs h2)
      (subst (IsPage p s) (sym (rows-filled s rows)) (page-IsPage p s), steps-filled s rows)
