-- ===== src/PreHeat/Single.antt =====
-- A fingerprint has at most one active order, and a firing alert leaves one.
use poundcake.Prelude.{
  any-update_first, count-update_first-suc, first-none-count, count-update_first, count_if,
  update_first, some, refl, eq_refl, inr, any, inl, subst, Bool-cases, arith, eq_iff, false, none,
  true, ◌∷◌, ◌≡◌, ◌≤◌, Bool, first, str_eq, List, String, ℕ,
}
use poundcake.PreHeat.Active.{
  process_resolved-holds, process_firing-holds, process_warning-holds, process_alert-holds, active,
}
use poundcake.PreHeat.{
  alert_status, is_warning_for, severity, is_active_for, fingerprint, is_unresolved_for, Alert,
}
use poundcake.PreHeat.Process.{
  count_warning, process_firing, resolve_order, close_warning, increment_and_reopen, new_order,
  process_alert, warning_order,
}
use poundcake.Tables.{Order}

module _ (id now : ℕ) (req : String) (a : Alert) (orders : List Order) (fp : String) where
  abbrev here : Order → Bool
  here = is_active_for fp

  abbrev AtMostOne : List Order → Type 0
  AtMostOne os = count_if (is_active_for fp) os ≤ 1

  other-none :
      str_eq (fingerprint a) fp ≡ true
      → first (is_active_for (fingerprint a)) orders ≡ none
      → count_if here orders ≡ 0
  other-none e h =
      first-none-count here orders
        (subst (λ x. first (is_active_for x) orders ≡ none) ((eq_iff (fingerprint a) fp).0 e) h)

  warning_order-AtMostOne : AtMostOne orders → AtMostOne (warning_order id now req a ∷ orders)
  unfolding warning_order new_order is_active_for count_if
  warning_order-AtMostOne h = h

  new_order-AtMostOne :
      AtMostOne orders
      → first (is_active_for (fingerprint a)) orders ≡ none
      → AtMostOne (new_order id now req a ∷ orders)
  unfolding new_order is_active_for count_if
  new_order-AtMostOne h n = elim (Bool-cases (str_eq (fingerprint a) fp)) [
    | inl e ↦ let z = other-none e n in ground arith
    | inr e ↦ rw e h
  ]

  warnings-AtMostOne :
      AtMostOne orders
      → AtMostOne (update_first (is_warning_for (fingerprint a)) (close_warning now a) orders)
        × AtMostOne (update_first (is_warning_for (fingerprint a)) (count_warning now) orders)
  unfolding close_warning count_warning is_active_for
  warnings-AtMostOne h =
      let closed =
        count-update_first (is_warning_for (fingerprint a)) (close_warning now a) here orders
          (λ o t e. cc) in
      let counted =
        count-update_first (is_warning_for (fingerprint a)) (count_warning now) here orders
          (λ o t e. cc) in
      (omega arith, omega arith)

  active-AtMostOne :
      AtMostOne orders
      → AtMostOne (update_first (is_active_for (fingerprint a)) (increment_and_reopen now) orders)
        × AtMostOne (update_first (is_active_for (fingerprint a)) (resolve_order now a) orders)
  unfolding increment_and_reopen resolve_order is_active_for
  active-AtMostOne h =
      let counted =
        count-update_first (is_active_for (fingerprint a)) (increment_and_reopen now) here orders
          (λ o t e. ground arith) in
      let settled =
        count-update_first (is_active_for (fingerprint a)) (resolve_order now a) here orders
          (λ o t e. ground arith) in
      (omega arith, omega arith)

  same_fingerprint :
      (o : Order)
      → is_unresolved_for (fingerprint a) o ≡ true
      → is_active_for fp (resolve_order now a o) ≡ true
      → str_eq (fingerprint a) fp ≡ true
  unfolding is_unresolved_for resolve_order is_active_for
  same_fingerprint o t e =
      let same = (eq_iff o.fingerprint (fingerprint a)).0 (ground arith) in
      subst (λ x. str_eq x fp ≡ true) same (ground arith)

  late-AtMostOne :
      AtMostOne orders
      → first (is_active_for (fingerprint a)) orders ≡ none
      → AtMostOne (update_first (is_unresolved_for (fingerprint a)) (resolve_order now a) orders)
  late-AtMostOne h n = elim (Bool-cases (str_eq (fingerprint a) fp)) [
    | inl e ↦
        let z = other-none e n in
        let more =
          count-update_first-suc (is_unresolved_for (fingerprint a)) (resolve_order now a) here
            orders in
        omega arith
    | inr e ↦
        let kept =
          count-update_first (is_unresolved_for (fingerprint a)) (resolve_order now a) here orders
            (λ o t q. absurd (let same = same_fingerprint o t q in cc)) in
        omega arith
  ]

  -- When a fingerprint has at most one active order, it does so after an alert of this or another
  -- fingerprint.
  pub process_alert-active_le_one :
      count_if (is_active_for fp) orders ≤ 1
      → count_if (is_active_for fp) (process_alert id now req a orders).1 ≤ 1
  process_alert-active_le_one h =
      let (closed, counted) = warnings-AtMostOne h in
      let (again, settled) = active-AtMostOne h in
      process_alert-holds id now req a orders AtMostOne h
        (process_warning-holds id now req a orders AtMostOne h (warning_order-AtMostOne h) closed
          counted)
        (process_firing-holds id now req a orders AtMostOne (new_order-AtMostOne h) (λ o e. again))
        (process_resolved-holds id now req a orders AtMostOne h settled (late-AtMostOne h))

module _ (id now : ℕ) (req : String) (a : Alert) (orders : List Order) where
  reopened-active :
      (o : Order)
      → active id now req a orders o ≡ true
      → active id now req a orders (increment_and_reopen now o) ≡ true
  unfolding increment_and_reopen is_active_for
  reopened-active o h = ground arith

  -- After a firing alert whose severity is not warning, its fingerprint has an active order.
  pub process_alert-firing_active :
      str_eq (severity a) "warning" ≡ false
      → str_eq (alert_status a) "firing" ≡ true
      → any (is_active_for (fingerprint a)) (process_alert id now req a orders).1 ≡ true
  unfolding process_alert process_firing
  process_alert-firing_active s f =
      rw (s, f)
        (process_firing-holds id now req a orders
          (λ os. any (is_active_for (fingerprint a)) os ≡ true) new_active again)
    where
      new_active :
          first (is_active_for (fingerprint a)) orders ≡ none
          → any (is_active_for (fingerprint a)) (new_order id now req a ∷ orders) ≡ true
      new_active n = rw (eq_refl (fingerprint a)) refl

      again :
          (o : Order)
          → first (is_active_for (fingerprint a)) orders ≡ some o
          → any
              (is_active_for (fingerprint a))
              (update_first (is_active_for (fingerprint a)) (increment_and_reopen now) orders)
            ≡ true
      again o e =
          any-update_first (is_active_for (fingerprint a)) (increment_and_reopen now) orders o e
            reopened-active
