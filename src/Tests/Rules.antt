-- ===== src/Tests/Rules.antt =====
-- The lifecycle of a rule over three evaluations.
use signalwatch.Base.{
  ℕ, true, false, String, ◌≡◌, ◌≢◌, refl, List, [], ◌∷◌, none, arith, eq_iff, ◌==◌,
}
use signalwatch.Base.Int.{pos}
use signalwatch.Base.Time.{zero_time}
use signalwatch.Rule.State.{seed, apply, opened, closed}
use signalwatch.Rule.Lifecycle.{
  Outcome, IsCoherent, IsBracketed, run, run-IsCoherent, events, events-IsBracketed,
}

abbrev cycle : List Outcome
cycle =
    record { triggered = true; value = "9 > 5"; at = pos 10; fresh_id = "i1" }
    ∷ record { triggered = true; value = "8 > 5"; at = pos 20; fresh_id = "i2" }
    ∷ record { triggered = false; value = "3 > 5"; at = pos 30; fresh_id = "i3" }
    ∷ []

cycle-events : events (seed "hot") cycle ≡ (true, "i1") ∷ (false, "i1") ∷ []
unfolding events apply opened closed
cycle-events = refl

seed-IsCoherent : IsCoherent (seed "hot")
seed-IsCoherent = record {
  firing_has_incident = λ h. cc;
  firing_has_start = λ h. cc;
  ok_has_none = λ h. refl;
  ok_has_no_start = λ h. refl;
}

ne_empty : (s : String) → (s == "") ≡ false → s ≢ ""
ne_empty s h = λ e. ground (arith, eq_iff s "")

later_than_zero : (n : ℕ) → pos n ≢ zero_time
unfolding zero_time
later_than_zero n = λ e. ground arith

run-IsCoherent_example : IsCoherent (run (seed "hot") cycle)
run-IsCoherent_example =
    run-IsCoherent (seed "hot") cycle
      (ne_empty "i1" refl, (ne_empty "i2" refl, (ne_empty "i3" refl, tt)))
      (later_than_zero 10, (later_than_zero 20, (later_than_zero 30, tt))) seed-IsCoherent

events-IsBracketed_example : IsBracketed none (events (seed "hot") cycle)
events-IsBracketed_example = events-IsBracketed (seed "hot") cycle
