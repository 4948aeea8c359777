-- ===== src/Store/Subscriptions/Match.antt =====
-- What a label selector matches.
use signalwatch.Base.{true, eq_iff, ◌≡◌, ◌≢◌, ◌↔◌, refl, [], ◌∷◌, arith}
use signalwatch.Base.Lists.{All}
use signalwatch.Subscriber.{Labels}
use signalwatch.Store.Subscriptions.{label, all_labels, match_labels}

-- Every pair of the selector is among the labels, a missing label reading as "".
abbrev pub Satisfies : Labels → Labels → Type 0
Satisfies selector actual = All (λ l. label l.0 actual ≡ l.1) selector

all_labels_iff :
    (selector actual : Labels) → (all_labels selector actual ≡ true) ↔ Satisfies selector actual
unfolding all_labels
all_labels_iff [] actual = (λ _. tt, λ _. refl)
all_labels_iff ((k, v) ∷ selector) actual =
    ground (arith, eq_iff (label k actual) v, all_labels_iff selector actual)

-- A selector matches exactly where it is not empty and every pair of it is among the labels, a
-- missing label reading as the empty text.
pub match_labels_iff :
    (selector actual : Labels)
    → (match_labels selector actual ≡ true) ↔ ((selector ≢ []) × Satisfies selector actual)
unfolding match_labels
match_labels_iff [] actual = (λ h. cc, λ h. absurd (h.0 refl))
match_labels_iff (l ∷ selector) actual = (
  λ h. (λ e. cc, (all_labels_iff (l ∷ selector) actual).0 h),
  λ h. (all_labels_iff (l ∷ selector) actual).1 h.1,
)
