-- ===== src/PreHeat/Active.antt =====
-- What every alert keeps true of each order: is_active agrees with the status.
use poundcake.Prelude.{
  update_first, All-update_first, not, false, str_eq, Option-cases, inr, inl, All, arith,
  if◌then◌else◌, none, refl, some, true, first, ◌∷◌, ◌≡◌, List, Bool, String, ℕ,
}
use poundcake.PreHeat.{
  alert_status, severity, fingerprint, Intake, is_unresolved_for, is_warning_for, Alert,
  is_active_for,
}
use poundcake.PreHeat.Process.{
  new_order, process_alert, warning_order, process_firing, process_resolved, process_warning_alert,
  close_warning, count_warning, resolve_order, increment_and_reopen,
}
use poundcake.Cook.Settling.{IsConsistent}
use poundcake.Status.{should_keep_active}
use poundcake.Tables.{Order}

module _ (now : ℕ) (a : Alert) where
  close_warning-IsConsistent : (o : Order) → IsConsistent (close_warning now a o)
  unfolding close_warning should_keep_active
  close_warning-IsConsistent o = refl

  count_warning-IsConsistent : (o : Order) → IsConsistent (count_warning now o)
  unfolding count_warning should_keep_active
  count_warning-IsConsistent o = refl

  resolve_order-IsConsistent : (o : Order) → IsConsistent (resolve_order now a o)
  unfolding resolve_order should_keep_active
  resolve_order-IsConsistent o = ground arith

increment_and_reopen-IsConsistent :
    (now : ℕ) (fp : String) (o : Order)
    → is_active_for fp o ≡ true
    → IsConsistent o
    → IsConsistent (increment_and_reopen now o)
unfolding increment_and_reopen is_active_for should_keep_active
increment_and_reopen-IsConsistent now fp o t h = ground arith

abbrev After : (List Order → Type 0) → Intake × List Order → Type 0
After R r = R r.1

-- What holds of both branches of a test holds of its result.
if-both :
    (R : Intake × List Order → Type 0) (b : Bool) (x y : Intake × List Order)
    → R x
    → R y
    → R (if b then x else y)
if-both R true x y h k = h
if-both R false x y h k = k

module _ (id now : ℕ) (req : String) (a : Alert) (orders : List Order) where
  abbrev pub active : Order → Bool
  active = is_active_for (fingerprint a)

  abbrev pub warned : Order → Bool
  warned = is_warning_for (fingerprint a)

  abbrev pub unresolved : Order → Bool
  unresolved = is_unresolved_for (fingerprint a)

  pub process_warning-holds :
      (R : List Order → Type 0)
      → R orders
      → R (warning_order id now req a ∷ orders)
      → R (update_first warned (close_warning now a) orders)
      → R (update_first warned (count_warning now) orders)
      → R (process_warning_alert id now req a orders).1
  unfolding process_warning_alert
  process_warning-holds R same added closed counted =
      if-both (After R) (str_eq (alert_status a) "resolved") _ _
        (elim (Option-cases (first warned orders)) [ inl e ↦ rw e same | inr (o, e) ↦ rw e closed ])
        (if-both (After R) (not (str_eq (alert_status a) "firing")) _ _ same
          (elim (Option-cases (first warned orders)) [
            | inl e ↦ rw e added
            | inr (o, e) ↦ rw e counted
          ]))

  pub process_firing-holds :
      (R : List Order → Type 0)
      → (first active orders ≡ none → R (new_order id now req a ∷ orders))
      → ((o : Order)
          → first active orders ≡ some o
          → R (update_first active (increment_and_reopen now) orders))
      → R (process_firing id now req a orders).1
  unfolding process_firing
  process_firing-holds R added counted = elim (Option-cases (first active orders)) [
    | inl e ↦ rw (process_firing, e) (added e)
    | inr (o, e) ↦ rw (process_firing, e) (counted o e)
  ]

  pub process_resolved-holds :
      (R : List Order → Type 0)
      → R orders
      → R (update_first active (resolve_order now a) orders)
      → (first active orders ≡ none → R (update_first unresolved (resolve_order now a) orders))
      → R (process_resolved now a orders).1
  unfolding process_resolved
  process_resolved-holds R same resolved late = elim (Option-cases (first active orders)) [
    | inr (o, e) ↦ rw (process_resolved, e) resolved
    | inl e ↦ elim (Option-cases (first unresolved orders)) [
      | inl n ↦ rw (process_resolved, e, n) (same)
      | inr (o, n) ↦ rw (process_resolved, e, n) ((late e))
    ]
  ]

  pub process_alert-holds :
      (R : List Order → Type 0)
      → R orders
      → R (process_warning_alert id now req a orders).1
      → R (process_firing id now req a orders).1
      → R (process_resolved now a orders).1
      → R (process_alert id now req a orders).1
  unfolding process_alert
  process_alert-holds R same warns fires resolves =
      if-both (After R) (str_eq (severity a) "warning") _ _ warns (
        if-both (After R) (str_eq (alert_status a) "firing") _ _ fires
          (if-both (After R) (str_eq (alert_status a) "resolved") _ _ resolves same))

  -- When is_active agrees with the status of every order, it does so after an alert.
  pub process_alert-IsConsistent :
      All IsConsistent orders → All IsConsistent (process_alert id now req a orders).1
  unfolding new_order warning_order should_keep_active
  process_alert-IsConsistent h =
      process_alert-holds (All IsConsistent) h
        (process_warning-holds (All IsConsistent) h (refl, h)
          (All-update_first warned (close_warning now a) IsConsistent orders
            (λ o t c. close_warning-IsConsistent now a o) h)
          (All-update_first warned (count_warning now) IsConsistent orders
            (λ o t c. count_warning-IsConsistent now a o) h))
        (process_firing-holds (All IsConsistent) (λ e. (refl, h))
          (λ o e.
            All-update_first active (increment_and_reopen now) IsConsistent orders
              (increment_and_reopen-IsConsistent now (fingerprint a)) h))
        (process_resolved-holds (All IsConsistent) h
          (All-update_first active (resolve_order now a) IsConsistent orders
            (λ o t c. resolve_order-IsConsistent now a o) h)
          (λ e.
            All-update_first unresolved (resolve_order now a) IsConsistent orders
              (λ o t c. resolve_order-IsConsistent now a o) h))
