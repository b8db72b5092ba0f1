-- ===== src/Examples/Suppressions.antt =====
-- The theorems on suppressions at a concrete window.
use poundcake.Prelude.{
  sort_by, ℕ, String, none, some, true, false, List, [], ◌∷◌, ◌≡◌, ◌≤◌, refl, In, inl, inr, All,
  arith, count_if, any, str_eq,
}
use poundcake.Json.{Value, Fields, get, text, field, end}
use poundcake.Cook.Settling.{IsConsistent}
use poundcake.PreHeat.{is_active_for}
use poundcake.Suppressions.{
  Texts, Suppression, suppression_matches, find_first_matching_suppression, created_before,
}
use poundcake.Suppressions.Choosing.{Applies, find_first_matching_suppression-chosen}
use poundcake.Suppressions.Events.{
  is_cleared, SuppressedEvent, compute_suppression_stats, has_fingerprint,
}
use poundcake.Suppressions.Latest.{compute_suppression_stats-latest, lookup}
use poundcake.Suppressions.Lifecycle.{
  Setting, Store, finalize_expired_suppressions, expired_batch, new_summary, is_closed,
  is_summary_of, requeue_still_firing_events, SummaryState,
}
use poundcake.Suppressions.Replaying.{requeue-active}
use poundcake.Prelude.Text.{lower}
use poundcake.Suppressions.Closing.{finalize_expired-safe}
use poundcake.Suppressions.Stopping.{Closed, finalize_expired-closes, finalize_expired-stuck}

-- `search` finds a pattern that is the whole text
abbrev texts : Texts
texts = record { search = λ pattern s. some (str_eq pattern s); show = λ v. "" }

-- a window from 10 to 20 for one host
abbrev window : ℕ → ℕ → Suppression
window id created = record {
  id = id;
  scope = "matchers";
  enabled = true;
  starts_at = 10;
  ends_at = 20;
  canceled_at = none;
  created_at = created;
  matchers = record { label_key = "host"; operator = "eq"; value = some "db1" } ∷ [];
}

abbrev labels : Fields
labels = field "host" (text "db1") end

abbrev windows : List Suppression
windows = window 2 6 ∷ window 1 5 ∷ []

find_first_matching_suppression-chosen_example :
    Applies texts labels 15 windows (window 1 5)
    × (suppression_matches texts (window 1 5) labels ≡ some true)
    × ((x : Suppression)
        → Applies texts labels 15 windows x
        → suppression_matches texts x labels ≡ some true
        → created_before x (window 1 5) ≡ false)
unfolding find_first_matching_suppression sort_by get
find_first_matching_suppression-chosen_example =
    find_first_matching_suppression-chosen texts labels 15 windows (window 1 5) refl

abbrev payload : Fields
payload = field "fingerprint" (text "f01") (field "labels" (Value.obj labels) end)

-- a digest that is the request's number
abbrev digest : Fields → String → String
digest alert req = req

abbrev event : ℕ → ℕ → String → SuppressedEvent
event id received status = record {
  id = id;
  suppression_id = 1;
  received_at = received;
  fingerprint = some "f01";
  alertname = some "host-down";
  severity = none;
  labels = labels;
  annotations = end;
  status = status;
  payload_hash = "h";
  req_id = some "R-1";
}

abbrev events : List SuppressedEvent
events = event 1 14 "firing" ∷ event 2 12 "resolved" ∷ []

abbrev iso : ℕ → String
iso t = "t"

compute_suppression_stats-latest_example :
    (e : SuppressedEvent) × (lookup "f01"
        (compute_suppression_stats iso 1 events).latest_by_fingerprint
      ≡ some e)
    × In e events
    × (e.suppression_id ≡ 1)
    × (has_fingerprint "f01" e ≡ true)
    × (12 ≤ e.received_at)
compute_suppression_stats-latest_example =
    compute_suppression_stats-latest "f01" iso 1 events (event 2 12 "resolved") (inr (inl refl))
      refl refl

-- a pass at 30 that takes one suppression
abbrev setting : Setting
setting = record {
  suppressions_enabled = true;
  lifecycle_enabled = true;
  batch_limit = 1;
  isoformat = iso;
  stats_error = λ n. none;
  requeue_error = λ n. none;
  req_id = "R-2";
  now = 30;
}

abbrev store : Store
store = record { events = events; summaries = []; next_order = 9; orders = [] }

finalize_expired-safe_example :
    let (finalized, after) = finalize_expired_suppressions setting windows store in
    (finalized ≤ 1)
    × (((fp : String) → count_if (is_active_for fp) after.orders ≤ 1)
        × All IsConsistent after.orders)
unfolding count_if
finalize_expired-safe_example = finalize_expired-safe setting windows store (λ fp. omega arith) tt

finalize_expired-closes_example :
    All
      (Closed (finalize_expired_suppressions setting windows store).1.summaries)
      (expired_batch setting windows)
finalize_expired-closes_example =
    finalize_expired-closes setting windows store refl refl (λ n. refl) (λ n. refl)

-- the first of the two expired suppressions is closed, and the second has no summary yet
abbrev half_done : Store
half_done = record store { summaries = record (new_summary 2) { state = SummaryState.closed } ∷ [] }

finalize_expired-stuck_example :
    finalize_expired_suppressions setting windows half_done ≡ (0, half_done)
unfolding expired_batch sort_by is_summary_of new_summary is_closed
finalize_expired-stuck_example =
    finalize_expired-stuck setting windows half_done ((_, refl, refl), tt)

-- The alert f01 still fires, and there is no order yet.
requeue-active_example :
    any
      (is_active_for "f01")
      (requeue_still_firing_events 30 1 "R-2" (("f01", event 1 14 "firing") ∷ []) (9, [])).1
    ≡ true
unfolding is_cleared lower
requeue-active_example =
    requeue-active 30 1 "R-2" (("f01", event 1 14 "firing") ∷ []) (9, []) "f01"
      (event 1 14 "firing") (inl refl) refl
