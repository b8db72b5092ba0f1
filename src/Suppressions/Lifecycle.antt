-- ===== src/Suppressions/Lifecycle.antt =====
-- The end of a suppression (api/services/suppression_service.py): its summary, and the replay of the
-- alerts that still fire. An order that is added stands before the others, as the newest. The read of
-- the statistics may raise, and so may the replay after some of its turns; a failure of the database
-- itself, after which the session takes no commit, is not modelled. The tickets and metrics are left
-- out, as nothing here reads them.
use poundcake.Prelude.{
  ℕ, suc, String, Bool, true, false, not, ◌&&◌, Option, none, some, str_eq, ltb, nat_eq, List, [],
  ◌∷◌, ◌++◌, if◌then◌else◌, keep, first, any, sort_by, take, update_first,
}
use Prim.Native.String.{◌++◌ as append}
use poundcake.Status.{or_text, OrderStatus, Outcome}
use poundcake.Json.{Value, get, text, obj, end, field, int, bool}
use poundcake.Tables.{Order}
use poundcake.PreHeat.{is_active_for, text_of}
use poundcake.Suppressions.{Suppression, is_null}
use poundcake.Suppressions.Events.{
  SuppressedEvent, Dict, text_at, Stats, is_cleared, compute_suppression_stats,
}

-- the states of a summary that the code writes
pub data SummaryState : Type 0 where
  pending closed failed : SummaryState

-- suppression_summaries
pub record Summary : Type 0 where
  pub suppression_id : ℕ
  pub total_suppressed : ℕ
  pub total_cleared : ℕ
  pub total_still_firing : ℕ
  pub by_alertname : Dict ℕ
  pub by_severity : Dict ℕ
  pub still_firing_alerts : Dict Value
  pub first_seen_at : Option ℕ
  pub last_seen_at : Option ℕ
  pub summary_created_at : Option ℕ
  pub summary_close_at : Option ℕ
  pub state : SummaryState
  pub last_error : Option String

abbrev or_other : Option String → Option String → Option String
or_other none other = other
or_other (some s) other = if str_eq s "" then other else some s

-- the order that a still firing fingerprint gets
unfoldable pub replay_order : ℕ → ℕ → ℕ → String → String → SuppressedEvent → Order
unfolding text_at text_of
replay_order id now suppression req_id fp e = record {
  id = id;
  req_id = or_text e.req_id (append req_id "-SUPPRESSION-REPLAY");
  fingerprint = fp;
  alert_group_name =
      or_text (or_other (text_of (get "group_name" e.labels)) (text_of (get "alertname" e.labels)))
        "Unknown";
  alert_status = "firing";
  processing_status = OrderStatus.new;
  is_active = true;
  remediation_outcome = Outcome.pending;
  clear_timeout_sec = none;
  clear_deadline_at = none;
  clear_timed_out_at = none;
  auto_close_eligible = false;
  severity = text_at "severity" "unknown" e.labels;
  counter = 1;
  labels = obj e.labels;
  raw_data = some (
      obj (
        field "fingerprint" (text fp) (
          field "status" (text "firing") (
            field "labels" (obj e.labels) (
              field "annotations" (obj e.annotations) (
                field "suppression_replay" (bool true)
                  (field "suppression_id" (int suppression) end)))))));
  starts_at = e.received_at;
  ends_at = none;
  created_at = now;
  updated_at = now;
}

-- one turn of the loop of `_requeue_still_firing_events`
unfoldable pub requeue_one :
    ℕ → ℕ → String → String → SuppressedEvent → ℕ × List Order → ℕ × List Order
unfolding is_cleared replay_order
requeue_one now suppression req_id fp e (next, orders) =
    if is_cleared e
    then (next, orders)
    else if any (is_active_for fp) orders
    then (next, orders)
    else (suc next, replay_order next now suppression req_id fp e ∷ orders)

-- `_requeue_still_firing_events`, from the number of the next order; the number after it tells how
-- many orders were created
unfoldable pub requeue_still_firing_events :
    ℕ → ℕ → String → Dict SuppressedEvent → ℕ × List Order → ℕ × List Order
unfolding requeue_one
requeue_still_firing_events now suppression req_id [] s = s
requeue_still_firing_events now suppression req_id ((fp, e) ∷ rest) s =
    requeue_still_firing_events now suppression req_id rest
      (requeue_one now suppression req_id fp e s)

unfoldable pub new_summary : ℕ → Summary
new_summary suppression = record {
  suppression_id = suppression;
  total_suppressed = 0;
  total_cleared = 0;
  total_still_firing = 0;
  by_alertname = [];
  by_severity = [];
  still_firing_alerts = [];
  first_seen_at = none;
  last_seen_at = none;
  summary_created_at = none;
  summary_close_at = none;
  state = SummaryState.pending;
  last_error = none;
}

unfoldable pub is_summary_of : ℕ → Summary → Bool
is_summary_of suppression s = nat_eq s.suppression_id suppression

unfoldable pub is_closed : Summary → Bool
is_closed s = elim s.state [ SummaryState.closed ↦ true | _ ↦ false ]

-- the columns that the pass takes from the statistics
unfoldable pub with_stats : ℕ → Stats → Summary → Summary
with_stats now stats s = record s {
  total_suppressed = stats.total_suppressed;
  total_cleared = stats.total_cleared;
  total_still_firing = stats.total_still_firing;
  by_alertname = stats.by_alertname;
  by_severity = stats.by_severity;
  still_firing_alerts = stats.still_firing_alerts;
  first_seen_at = stats.first_seen_at;
  last_seen_at = stats.last_seen_at;
  summary_created_at = some now;
}

-- an empty summary keeps the error of an earlier pass
unfoldable pub close_summary : ℕ → Summary → Summary
close_summary now s = record s {
  state = SummaryState.closed;
  summary_close_at = some now;
  last_error = if nat_eq s.total_suppressed 0 then s.last_error else none;
}

unfoldable pub fail_summary : String → Summary → Summary
fail_summary error s = record s { state = SummaryState.failed; last_error = some error }

-- What the pass reads and writes.
pub record Store : Type 0 where
  pub events : List SuppressedEvent
  pub summaries : List Summary
  pub next_order : ℕ
  pub orders : List Order

-- The settings of the service and what the pass meets.
pub record Setting : Type 0 where
  pub suppressions_enabled : Bool
  pub lifecycle_enabled : Bool
  pub batch_limit : ℕ
  pub isoformat : ℕ → String
  pub stats_error : ℕ → Option String  -- of the read of a suppression's statistics
  pub requeue_error : ℕ → Option (ℕ × String)  -- of its replay, with the number of turns before it
  pub req_id : String
  pub now : ℕ

-- `_get_or_create_summary`: the summary, and the table that holds it
unfoldable pub get_or_create_summary : ℕ → List Summary → Summary × List Summary
unfolding is_summary_of new_summary
get_or_create_summary suppression summaries = elim (first (is_summary_of suppression) summaries) [
  | some s ↦ (s, summaries)
  | none ↦ (new_summary suppression, summaries ++ (new_summary suppression ∷ []))
]

-- the body of the try block
unfoldable pub settle_summary : Setting → ℕ → Store → Store
unfolding requeue_still_firing_events with_stats close_summary is_summary_of
settle_summary c suppression st =
    let stats = compute_suppression_stats c.isoformat suppression st.events in
    let requeued =
      requeue_still_firing_events c.now suppression c.req_id stats.latest_by_fingerprint
        (st.next_order, st.orders) in
    record st {
      summaries =
          update_first (is_summary_of suppression)
            (λ s. close_summary c.now (with_stats c.now stats s)) st.summaries;
      next_order = requeued.0;
      orders = requeued.1;
    }

unfoldable pub record_failure : String → ℕ → Store → Store
unfolding fail_summary is_summary_of
record_failure error suppression st = record st {
  summaries = update_first (is_summary_of suppression) (fail_summary error) st.summaries;
}

-- the except block after an error of the replay: the summary has the statistics, and the orders of the
-- turns before the error are committed
unfoldable pub record_requeue_failure : Setting → ℕ → String → ℕ → Store → Store
unfolding requeue_still_firing_events with_stats fail_summary is_summary_of
record_requeue_failure c turns error suppression st =
    let stats = compute_suppression_stats c.isoformat suppression st.events in
    let requeued =
      requeue_still_firing_events c.now suppression c.req_id
        (take turns stats.latest_by_fingerprint) (st.next_order, st.orders) in
    record st {
      summaries =
          update_first (is_summary_of suppression)
            (λ s. fail_summary error (with_stats c.now stats s)) st.summaries;
      next_order = requeued.0;
      orders = requeued.1;
    }

-- one turn of the loop: how many suppressions were finalized, and what is left
unfoldable pub finalize_one : Setting → Suppression → ℕ × Store → ℕ × Store
unfolding get_or_create_summary is_closed settle_summary record_failure record_requeue_failure
finalize_one c s (done, st) =
    let (summary, summaries) = get_or_create_summary s.id st.summaries in
    let kept = record st { summaries = summaries } in
    if is_closed summary then (done, kept) else elim (c.stats_error s.id) [
      | some error ↦ (done, record_failure error s.id kept)
      | none ↦ elim (c.requeue_error s.id) [
        | some (turns, error) ↦ (done, record_requeue_failure c turns error s.id kept)
        | none ↦ (suc done, settle_summary c s.id kept)
      ]
    ]

unfoldable pub finalize_each : Setting → List Suppression → ℕ × Store → ℕ × Store
unfolding finalize_one
finalize_each c [] r = r
finalize_each c (s ∷ ss) r = finalize_each c ss (finalize_one c s r)

abbrev pub ends_before : Suppression → Suppression → Bool
ends_before a b = ltb a.ends_at b.ends_at

unfoldable pub is_expired : ℕ → Suppression → Bool
is_expired now s = ltb s.ends_at now && is_null s.canceled_at

-- ORDER BY ends_at LIMIT batch_limit
unfoldable pub expired_batch : Setting → List Suppression → List Suppression
unfolding is_expired
expired_batch c suppressions =
    take c.batch_limit (sort_by ends_before (keep (is_expired c.now) suppressions))

unfoldable pub finalize_expired_suppressions : Setting → List Suppression → Store → ℕ × Store
unfolding finalize_each expired_batch
finalize_expired_suppressions c suppressions st =
    if not c.suppressions_enabled
    then (0, st)
    else if not c.lifecycle_enabled
    then (0, st)
    else finalize_each c (expired_batch c suppressions) (0, st)
