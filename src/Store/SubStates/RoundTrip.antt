-- ===== src/Store/SubStates/RoundTrip.antt =====
-- What `Get` returns after `Upsert`: the delivery state with its instant cut to milliseconds.
use signalwatch.Base.{
  true, false, String, eq_iff, eq_refl, ◌≡◌, ◌≢◌, refl, ◌∙◌, ◌⊎◌, some, arith, ap,
}
use signalwatch.Base.Lists.{upsert_by, find-upsert_by_hit, find-upsert_by_miss}
use signalwatch.Base.Result.{ok}
use signalwatch.Subscriber.{IncidentSubState}
use signalwatch.Store.Db.{Db, SubStateRow, query-quiet, exec-quiet, IsQuiet}
use signalwatch.Store.LiveStates.RoundTrip.{cut, of_ms_column-ms_column}
use signalwatch.Store.SubStates.{to_row, of_row, has_key, found, get, upsert}

-- A delivery state as it comes back from the table.
abbrev pub stored : IncidentSubState → IncidentSubState
stored s = record s { last_notified_at = cut s.last_notified_at }

of_row-to_row : (s : IncidentSubState) → of_row (to_row s) ≡ stored s
unfolding of_row to_row
of_row-to_row s =
    ap (λ t. record s { last_notified_at = t }) (of_ms_column-ms_column s.last_notified_at)

own_key : (s : IncidentSubState) → has_key s.incident_id s.subscription_id (to_row s) ≡ true
unfolding to_row
own_key s = ground (arith, eq_refl s.incident_id, eq_refl s.subscription_id)

keys_apart :
    (a b i j : String) (x : SubStateRow)
    → (i ≢ a) ⊎ (j ≢ b)
    → has_key a b x ≡ true
    → has_key i j x ≡ false
keys_apart a b i j x ne h = ground (
  arith,
  eq_iff x.incident_id a,
  eq_iff x.subscription_id b,
  eq_iff x.incident_id i,
  eq_iff x.subscription_id j,
)

-- Where no statement fails, `Get` of the incident and subscription returns the delivery state that
-- `Upsert` wrote, with its instant cut to whole milliseconds, one before the first millisecond of
-- 1970 has ended read as the zero time, and every other pair reads as before.
pub get-upsert_sub :
    (s : IncidentSubState) (i j : String) (db : Db)
    → IsQuiet db
    → (get s.incident_id s.subscription_id (upsert s db).1).0 ≡ ok (some (stored s))
      × ((i ≢ s.incident_id) ⊎ (j ≢ s.subscription_id)
          → (get i j (upsert s db).1).0 ≡ (get i j db).0)
unfolding get upsert
get-upsert_sub s i j db quiet = rw (exec-quiet _ db quiet) (
    simp
      (
        query-quiet _
            (record db {
              sub_states =
                  upsert_by (has_key s.incident_id s.subscription_id) (to_row s) db.sub_states;
            })
            quiet,
        query-quiet _ db quiet,
      )
      (
        ap (λ r. ok (found r))
              (find-upsert_by_hit _ _ (to_row s) db.sub_states (λ x. refl) (own_key s))
            ∙ ap (λ x. ok (some x)) (of_row-to_row s),
        λ ne.
            ap (λ r. ok (found r))
              (find-upsert_by_miss _ _ (to_row s) db.sub_states (λ x. keys_apart _ _ i j x ne)
                (keys_apart _ _ i j (to_row s) ne (own_key s))),
      ))
