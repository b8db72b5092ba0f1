-- ===== src/Suppressions.antt =====
-- Alert suppressions (api/services/suppression_service.py): the window of a suppression, its matchers
-- and the choice of the suppression that an alert falls under. `re.search` is a parameter of the
-- model, and so is `str` of a label that is no text; a query's rows come in the order of the table.
-- Events has what a suppressed alert leaves and its statistics, Lifecycle the end of a suppression;
-- the proofs are in Choosing, Counting, Replaying and Closing.
pub mod Choosing
pub mod Events
pub mod Counting
pub mod Latest
pub mod Lifecycle
pub mod Replaying
pub mod Closing
pub mod Stopping
use poundcake.Prelude.{
  drop, length, take, ℕ, String, Bool, true, false, not, ◌&&◌, ◌||◌, Option, none, some, str_eq,
  ltb, leb, nat_eq, List, [], ◌∷◌, if◌then◌else◌, keep, sort_by,
}
use poundcake.Json.{Value, Fields, get, text, null}

-- `re.search(pattern, s) is not None`, none where the pattern raises re.error, and `str(v)`
pub record Texts : Type 0 where
  pub search : String → String → Option Bool
  pub show : Value → String

-- alert_suppression_matchers
pub record Matcher : Type 0 where
  pub label_key : String
  pub operator : String
  pub value : Option String

-- alert_suppressions
pub record Suppression : Type 0 where
  pub id : ℕ
  pub scope : String
  pub enabled : Bool
  pub starts_at : ℕ
  pub ends_at : ℕ
  pub canceled_at : Option ℕ
  pub created_at : ℕ
  pub matchers : List Matcher

-- the four texts that suppression_status returns
pub data WindowStatus : Type 0 where
  canceled scheduled expired active : WindowStatus

abbrev pub is_null {ℓ} : {A : Type ℓ} → Option A → Bool
is_null none = true
is_null (some a) = false

unfoldable pub suppression_status : Suppression → ℕ → WindowStatus
suppression_status s now =
    if not (is_null s.canceled_at)
    then WindowStatus.canceled
    else if ltb now s.starts_at
    then WindowStatus.scheduled
    else if ltb s.ends_at now
    then WindowStatus.expired
    else WindowStatus.active

-- `_safe_str`
safe_str : Texts → Value → String
safe_str t (text s) = s
safe_str t null = ""
safe_str t v = t.show v

safe_text : Option String → String
safe_text none = ""
safe_text (some s) = s

abbrev negated : Option Bool → Option Bool
negated none = none
negated (some b) = some (not b)

unfoldable pub matches_present : Texts → String → Option String → String → Option Bool
unfolding safe_text
matches_present t operator expected actual =
    if str_eq operator "eq"
    then some (str_eq actual (safe_text expected))
    else if str_eq operator "neq"
    then some (not (str_eq actual (safe_text expected)))
    else if str_eq operator "regex"
    then elim expected [ none ↦ some false | some pattern ↦ t.search pattern actual ]
    else if str_eq operator "nregex"
    then elim expected [ none ↦ some true | some pattern ↦ negated (t.search pattern actual) ]
    else some false

-- `_matcher_match`, none where a pattern raises
unfoldable pub matcher_match : Texts → Matcher → Fields → Option Bool
unfolding safe_str matches_present
matcher_match t m labels =
    let found = get m.label_key labels in
    if str_eq m.operator "exists"
    then some (not (is_null found))
    else if str_eq m.operator "not_exists"
    then some (is_null found)
    else elim found [
      | none ↦ some false
      | some v ↦ matches_present t m.operator m.value (safe_str t v)
    ]

-- one more factor of `all(…)`, which stops at the first that is false or raises
abbrev pub and_then : Option Bool → Option Bool → Option Bool
and_then none rest = none
and_then (some false) rest = some false
and_then (some true) rest = rest

unfoldable pub all_match : Texts → List Matcher → Fields → Option Bool
unfolding matcher_match
all_match t [] labels = some true
all_match t (m ∷ ms) labels = and_then (matcher_match t m labels) (all_match t ms labels)

abbrev has_matchers : List Matcher → Bool
has_matchers [] = false
has_matchers (m ∷ ms) = true

unfoldable pub suppression_matches : Texts → Suppression → Fields → Option Bool
unfolding all_match
suppression_matches t s labels =
    if str_eq s.scope "all"
    then some true
    else if not (str_eq s.scope "matchers")
    then some false
    else if not (has_matchers s.matchers)
    then some false
    else all_match t s.matchers labels

-- the WHERE of the query for candidates, and of count_active_suppressions
unfoldable pub is_candidate : ℕ → Suppression → Bool
is_candidate now s = s.enabled && is_null s.canceled_at && leb s.starts_at now && leb now s.ends_at

-- ORDER BY created_at, id
unfoldable pub created_before : Suppression → Suppression → Bool
created_before a b =
    ltb a.created_at b.created_at || nat_eq a.created_at b.created_at && ltb a.id b.id

abbrev pub or_later :
    Option Bool → Suppression → Option (Option Suppression) → Option (Option Suppression)
or_later none s later = none
or_later (some true) s later = some (some s)
or_later (some false) s later = later

-- `for suppression in candidates`
unfoldable pub first_match : Texts → Fields → List Suppression → Option (Option Suppression)
unfolding suppression_matches
first_match t labels [] = some none
first_match t labels (s ∷ ss) =
    or_later (suppression_matches t s labels) s (first_match t labels ss)

-- none where a pattern raises
unfoldable pub find_first_matching_suppression :
    Texts → Fields → ℕ → List Suppression → Option (Option Suppression)
unfolding is_candidate created_before first_match
find_first_matching_suppression t labels now suppressions =
    first_match t labels (sort_by created_before (keep (is_candidate now) suppressions))

unfoldable pub count_active_suppressions : ℕ → List Suppression → ℕ
unfolding is_candidate
count_active_suppressions now suppressions = length (keep (is_candidate now) suppressions)

-- the filter on the status that list_suppressions adds to its query
unfoldable pub status_filter : Option String → ℕ → Suppression → Bool
status_filter none now s = true
status_filter (some status) now s =
    if str_eq status "scheduled"
    then is_null s.canceled_at && ltb now s.starts_at
    else if str_eq status "active"
    then is_null s.canceled_at && leb s.starts_at now && leb now s.ends_at
    else if str_eq status "expired"
    then is_null s.canceled_at && ltb s.ends_at now
    else if str_eq status "canceled"
    then not (is_null s.canceled_at)
    else true

abbrev same_flag : Option Bool → Bool → Bool
same_flag none b = true
same_flag (some true) b = b
same_flag (some false) b = not b

abbrev same_scope : Option String → String → Bool
same_scope none scope = true
same_scope (some wanted) scope = str_eq wanted "" || str_eq scope wanted

-- ORDER BY starts_at DESC
unfoldable pub starts_later : Suppression → Suppression → Bool
starts_later a b = ltb b.starts_at a.starts_at

unfoldable pub list_suppressions :
    Option String → Option Bool → Option String → ℕ → ℕ → ℕ → List Suppression → List Suppression
unfolding status_filter starts_later
list_suppressions status enabled scope now limit offset suppressions = take limit (
    drop offset (
      sort_by starts_later (
        keep
          (λ s.
            same_flag enabled s.enabled && same_scope scope s.scope && status_filter status now s)
          suppressions)))
