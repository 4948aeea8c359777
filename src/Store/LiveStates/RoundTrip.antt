-- ===== src/Store/LiveStates/RoundTrip.antt =====
-- What `Get` returns after `Upsert`: the live state with its instants cut to milliseconds.
use signalwatch.Base.{
  leb, if◌then◌else◌, ◌-◌, ◌%◌, true, false, String, eq_refl, ◌≡◌, ◌≢◌, refl, ◌∙◌, some, arith, ap,
}
use signalwatch.Base.Keys.{eq_apart, ne_of}
use signalwatch.Base.Lists.{upsert_by, find-upsert_by_hit, find-upsert_by_miss}
use signalwatch.Base.Result.{ok}
use signalwatch.Base.Int.{pos, negsuc}
use signalwatch.Base.Time.{Time, zero_time, is_zero, unix_milli, of_unix_milli}
use signalwatch.Rule.State.{LiveState}
use signalwatch.Store.Db.{Db, text_of-nullable, query-quiet, exec-quiet, IsQuiet}
use signalwatch.Store.LiveStates.{
  ms_column, of_ms_column, to_row, of_row, has_rule, found, get, upsert,
}

-- An instant cut to whole milliseconds; one before the first millisecond of 1970 has ended counts
-- as the zero time.
unfoldable pub cut : Time → Time
cut (pos n) = if leb 1000000 n then pos (n - n % 1000000) else zero_time
cut (negsuc n) = zero_time

pub of_ms_column-ms_column : (t : Time) → of_ms_column (ms_column t) ≡ cut t
unfolding of_ms_column ms_column cut is_zero zero_time unix_milli of_unix_milli
of_ms_column-ms_column (pos n) = ground arith
of_ms_column-ms_column (negsuc n) = ground arith

-- A live state as it comes back from the table.
abbrev pub stored : LiveState → LiveState
stored s = record s { triggered_at = cut s.triggered_at; last_eval_at = cut s.last_eval_at }

of_row-to_row : (s : LiveState) → of_row (to_row s) ≡ stored s
unfolding of_row to_row
of_row-to_row s = ground (
  arith,
  text_of-nullable s.incident_id,
  of_ms_column-ms_column s.triggered_at,
  of_ms_column-ms_column s.last_eval_at,
)

own_key : (s : LiveState) → has_rule s.rule_id (to_row s) ≡ true
unfolding to_row
own_key s = eq_refl s.rule_id

other_key : (s : LiveState) (id : String) → id ≢ s.rule_id → has_rule id (to_row s) ≡ false
unfolding to_row
other_key s id ne = ne_of s.rule_id id ne

-- Where no statement fails, `Get` of the rule returns the live state that `Upsert` wrote, with its
-- instants cut to whole milliseconds, those before the first millisecond of 1970 has ended read as
-- the zero time, and the live states of other rules are as before.
pub get-upsert_live :
    (s : LiveState) (id : String) (db : Db)
    → IsQuiet db
    → (get s.rule_id (upsert s db).1).0 ≡ ok (some (stored s))
      × (id ≢ s.rule_id → (get id (upsert s db).1).0 ≡ (get id db).0)
unfolding get upsert
get-upsert_live s id db quiet = rw (exec-quiet _ db quiet) (
    simp
      (
        query-quiet _
            (record db { live_states = upsert_by (has_rule s.rule_id) (to_row s) db.live_states })
            quiet,
        query-quiet _ db quiet,
      )
      (
        ap (λ r. ok (found r))
              (find-upsert_by_hit _ _ (to_row s) db.live_states (λ x. refl) (own_key s))
            ∙ ap (λ x. ok (some x)) (of_row-to_row s),
        λ ne.
            ap (λ r. ok (found r))
              (find-upsert_by_miss _ _ (to_row s) db.live_states
                (λ x. eq_apart s.rule_id id x.rule_id ne) (other_key s id ne)),
      ))
