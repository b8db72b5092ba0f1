-- ===== src/Auth/Areas.antt =====
-- The parts of the API that the internal services work on, and that the routes of Timer, the runner
-- and Dishwasher lie in theirs.
use poundcake.Prelude.{
  ◌⊎◌, ◌≡◌, ◌||◌, ◌&&◌, ◌∷◌, [], Bool, Bool-cases, List, Option, String, any, arith, eq_iff, false,
  if◌then◌else◌, inl, inr, one_of, refl, starts_with, str_eq, sym, subst, true,
}
use poundcake.Prelude.Text.{lower, strip, text_or_empty}
use poundcake.Auth.Routes.{
  advance_path, dishwasher_path, path_is, timer_runtime_path, expediter_runner_runtime_path,
}

-- The service has the name, the method is one of these, and the path is one of the first list or lies
-- below one of the second.
abbrev pub Area :
    Option String → String → String → String → List String → List String → List String → Type 0
Area kind path method name methods exact below =
    (lower (strip (text_or_empty kind)) ≡ name)
    × ((one_of method methods ≡ true)
        × ((one_of path exact || any (starts_with path) below) ≡ true))

-- The parts of the API that the five services work on.
abbrev pub PrepChefArea : Option String → String → String → Type 0
PrepChefArea kind path method =
    Area kind path method "prep-chef" ("GET" ∷ "POST" ∷ [])
      ("/api/v1/orders" ∷ "/api/v1/plugins/prep-chef" ∷ []) ("/api/v1/cook/orders/" ∷ [])

abbrev pub TimerArea : Option String → String → String → Type 0
TimerArea kind path method =
    Area kind path method "timer" ("GET" ∷ "POST" ∷ [])
      ("/api/v1/suppressions/run-lifecycle" ∷ "/api/v1/plugins/timer" ∷ [])
      ("/api/v1/dish-ingredients/" ∷ "/api/v1/dishes/" ∷ "/api/v1/cook/dishes/"
        ∷ "/api/v1/expediter/status/" ∷ "/api/v1/expediter/cancel/" ∷ [])

abbrev pub RunnerArea : Option String → String → String → Type 0
RunnerArea kind path method =
    Area kind path method "expediter-runner" ("GET" ∷ "POST" ∷ [])
      ("/api/v1/plugins/expediter-runner" ∷ [])
      ("/api/v1/dish-ingredients/" ∷ "/api/v1/cook/dishes/" ∷ "/api/v1/expediter/execute/" ∷ [])

abbrev pub DishwasherArea : Option String → String → String → Type 0
DishwasherArea kind path method =
    Area kind path method "dishwasher" ("GET" ∷ "POST" ∷ "PUT" ∷ "PATCH" ∷ [])
      ("/api/v1/orders" ∷ "/api/v1/plugins" ∷ "/api/v1/plugins/dishwasher"
        ∷ "/api/v1/internal/service-registry/ingredients/bulk" ∷ "/api/v1/service-registry"
        ∷ "/api/v1/recipes" ∷ "/api/v1/communications/policy" ∷ "/api/v1/scheduled-tasks" ∷ [])
      ("/api/v1/service-registry/" ∷ "/api/v1/recipes/" ∷ "/api/v1/scheduled-tasks/" ∷ [])

abbrev pub CredentialArea : Option String → String → String → Type 0
CredentialArea kind path method =
    Area kind path method "credential-manager" ("GET" ∷ [])
      ("/api/v1/plugins" ∷ "/api/v1/plugins/credential-manager" ∷ []) []

abbrev pub ServiceArea : Option String → String → String → Type 0
ServiceArea kind path method =
    PrepChefArea kind path method
    ⊎ (TimerArea kind path method
        ⊎ (RunnerArea kind path method
            ⊎ (DishwasherArea kind path method ⊎ CredentialArea kind path method)))

exact-below :
    (path t prefix : String)
    → str_eq path t ≡ true
    → starts_with t prefix ≡ true
    → starts_with path prefix ≡ true
exact-below path t prefix e h =
    subst (λ s. starts_with s prefix ≡ true) (sym ((eq_iff path t).0 e)) h

and_false : (a : Bool) → (a && false) ≡ false
and_false true = refl
and_false false = refl

if_same : (a : Bool) → (if a then false else false) ≡ false
if_same true = refl
if_same false = refl

module _ (path m : String) where
  below_rows :
      one_of path (
          "/api/v1/dish-ingredients/in-flight" ∷ "/api/v1/dish-ingredients/cancel-requested"
          ∷ "/api/v1/dish-ingredients/advance-ready" ∷ [])
        ≡ true
      → starts_with path "/api/v1/dish-ingredients/" ≡ true
  below_rows h = ground (
    arith,
    exact-below path "/api/v1/dish-ingredients/in-flight" "/api/v1/dish-ingredients/",
    exact-below path "/api/v1/dish-ingredients/cancel-requested" "/api/v1/dish-ingredients/",
    exact-below path "/api/v1/dish-ingredients/advance-ready" "/api/v1/dish-ingredients/",
  )

  pub timer-methods : timer_runtime_path path m ≡ true → one_of m ("GET" ∷ "POST" ∷ []) ≡ true
  unfolding timer_runtime_path advance_path
  timer-methods h = elim (Bool-cases (str_eq m "GET")) [
    | inl g ↦ rw g refl
    | inr g ↦ elim (Bool-cases (str_eq m "POST")) [
      | inl p ↦ rw (g, p) refl
      | inr p ↦ absurd (let no = no_method g p in cc)
    ]
  ]
    where
      no_method :
          str_eq m "GET" ≡ false → str_eq m "POST" ≡ false → timer_runtime_path path m ≡ false
      no_method a b = simp (a, b, and_false)

  pub timer-paths :
      timer_runtime_path path m ≡ true
      → (str_eq path "/api/v1/suppressions/run-lifecycle"
          || any (starts_with path) (
              "/api/v1/dish-ingredients/" ∷ "/api/v1/dishes/" ∷ "/api/v1/cook/dishes/"
              ∷ "/api/v1/expediter/status/" ∷ "/api/v1/expediter/cancel/" ∷ []))
        ≡ true
  unfolding timer_runtime_path advance_path
  timer-paths h = ground (arith, below_rows)

  pub runner-routes :
      expediter_runner_runtime_path path m ≡ true
      → (one_of m ("GET" ∷ "POST" ∷ []) ≡ true)
        × (any (starts_with path) (
              "/api/v1/dish-ingredients/" ∷ "/api/v1/cook/dishes/" ∷ "/api/v1/expediter/execute/"
              ∷ [])
            ≡ true)
  unfolding expediter_runner_runtime_path advance_path
  runner-routes h = ground (
    arith,
    exact-below path "/api/v1/dish-ingredients/execution-pending" "/api/v1/dish-ingredients/",
  )

  pub dishwasher-methods :
      dishwasher_path path m ≡ true → one_of m ("GET" ∷ "POST" ∷ "PUT" ∷ "PATCH" ∷ []) ≡ true
  unfolding dishwasher_path
  dishwasher-methods h = elim (Bool-cases (one_of m ("GET" ∷ "POST" ∷ "PUT" ∷ "PATCH" ∷ []))) [
    | inl g ↦ g
    | inr g ↦
        absurd
          (let no = no_method (ground arith) (ground arith) (ground arith) (ground arith) in cc)
  ]
    where
      no_method :
          str_eq m "GET" ≡ false
          → str_eq m "POST" ≡ false
          → str_eq m "PUT" ≡ false
          → str_eq m "PATCH" ≡ false
          → dishwasher_path path m ≡ false
      no_method a b c d = simp (a, b, c, d, and_false, if_same)

  pub dishwasher-paths :
      dishwasher_path path m ≡ true
      → (one_of path (
            "/api/v1/orders" ∷ "/api/v1/plugins" ∷ "/api/v1/plugins/dishwasher"
            ∷ "/api/v1/internal/service-registry/ingredients/bulk" ∷ "/api/v1/service-registry"
            ∷ "/api/v1/recipes" ∷ "/api/v1/communications/policy" ∷ "/api/v1/scheduled-tasks" ∷ [])
          || any
              (starts_with path)
              ("/api/v1/service-registry/" ∷ "/api/v1/recipes/" ∷ "/api/v1/scheduled-tasks/" ∷ []))
        ≡ true
  unfolding dishwasher_path path_is
  dishwasher-paths h = ground arith
