-- ===== src/Eval/Window/Exact.antt =====
-- Reading a window gives the samples that were observed in it.
use Prim.Native.String.{◌++◌ as ◌<>◌}
use signalwatch.Base.{
  ◌&&◌, ap₂, eq_iff, Bool, true, false, not, String, ◌==◌, List, [], ◌∷◌, ◌++◌, Option, none, some,
  ◌≡◌, refl, sym, ◌∙◌, ap, arith, if◌then◌else◌,
}
use signalwatch.Base.Int.{leb_ℤ, ◌≤ℤ◌, ◌<ℤ◌, pos, int_laws}
use signalwatch.Base.Lists.{select, All}
use signalwatch.Base.Time.{Time, Duration, add, negate, before}
use signalwatch.Rule.Condition.{Float64}
use signalwatch.Eval.Window.{
  Sample, Fields, Conversions, Buffers, key_of, numeric, observe_value, drop_old, prune,
  observe_fields, observe, samples,
}

-- One call of `Observe`.
pub record Observation : Type 0 where
  pub ref : String
  pub fields : Fields
  pub at : Time
  pub now : Time

-- Whether a sample is not before the cutoff.
abbrev pub recent : Time → Sample → Bool
recent cutoff s = not (before s.at cutoff)

abbrev sample_of : Bool → Time → Option Float64 → List Sample
sample_of false at x = []
sample_of true at none = []
sample_of true at (some x) = record { at = at; value = x } ∷ []

module _ (conv : Conversions) where
  -- The samples that an observation makes for a key.
  unfoldable keyed : String → String → Fields → Time → List Sample
  keyed key ref [] at = []
  keyed key ref ((field, v) ∷ fs) at =
      sample_of (key == key_of ref field) at (numeric conv v) ++ keyed key ref fs at

  -- All samples that were ever observed for a key, in order.
  unfoldable keyed_history : String → List Observation → List Sample
  keyed_history key [] = []
  keyed_history key (o ∷ os) = keyed key o.ref o.fields o.at ++ keyed_history key os

  unfoldable pub observe_all : Duration → List Observation → Buffers → Buffers
  observe_all max_span [] b = b
  observe_all max_span (o ∷ os) b =
      observe_all max_span os (observe conv max_span o.ref o.fields o.at o.now b)

eq_sym : (a b : String) → (a == b) ≡ (b == a)
eq_sym a b = ground (arith, eq_iff a b, eq_iff b a)

append_nil : {A : Type 0} (xs : List A) → xs ≡ xs ++ []
append_nil [] = refl
append_nil (x ∷ xs) = ap (λ ys. x ∷ ys) (append_nil xs)

append_assoc : {A : Type 0} (xs ys zs : List A) → (xs ++ ys) ++ zs ≡ xs ++ (ys ++ zs)
append_assoc [] ys zs = refl
append_assoc (x ∷ xs) ys zs = ap (λ l. x ∷ l) (append_assoc xs ys zs)

select-append :
    {A : Type 0} (p : A → Bool) (xs ys : List A) → select p (xs ++ ys) ≡ select p xs ++ select p ys
unfolding select
select-append p [] ys = refl
select-append p (x ∷ xs) ys = ground (arith, select-append p xs ys)

observe_value_lem :
    (key k : String) (at : Time) (x : Option Float64) (b : Buffers)
    → observe_value k at x b key ≡ b key ++ sample_of (key == k) at x
observe_value_lem key k at none b =
    append_nil (b key) ∙ elim (key == k) as (λ h. b key ++ [] ≡ b key ++ sample_of h at none) [
      | true ↦ refl
      | false ↦ refl
    ]
observe_value_lem key k at (some x) b =
    elim (key == k)
      as (λ h.
        (if h then b key ++ record { at = at; value = x } ∷ [] else b key)
        ≡ b key ++ sample_of h at (some x)) [ true ↦ refl | false ↦ append_nil (b key) ]

select-drop_old :
    (cutoff c : Time) (ss : List Sample)
    → cutoff <ℤ c
    → select (recent c) (drop_old cutoff ss) ≡ select (recent c) ss
unfolding select drop_old
select-drop_old cutoff c [] lt = refl
select-drop_old cutoff c (s ∷ ss) lt = ground (arith, select-drop_old cutoff c ss lt)

-- A moment less the span lies before a later moment less the window.
cutoff_lem :
    (now now' : Time) (window span : Duration)
    → now ≤ℤ now'
    → window <ℤ span
    → add now (negate span) <ℤ add now' (negate window)
unfolding add negate
cutoff_lem now now' window span later wide = omega int_laws

select-prune :
    (span : Duration) (now c : Time) (b : Buffers) (key : String)
    → add now (negate span) <ℤ c
    → select (recent c) (prune span now b key) ≡ select (recent c) (b key)
unfolding prune
select-prune span now c b key lt =
    elim (leb_ℤ span (pos 0))
      as (λ h.
        select (recent c) ((if h then b else λ k. drop_old (add now (negate span)) (b k)) key)
        ≡ select (recent c) (b key)) [
          | true ↦ refl
          | false ↦ select-drop_old (add now (negate span)) c (b key) lt
        ]

module _ (conv : Conversions) where
  observe_fields-keyed :
      (key ref : String) (fs : Fields) (at : Time) (b : Buffers)
      → observe_fields conv ref fs at b key ≡ b key ++ keyed conv key ref fs at
  unfolding observe_fields keyed
  observe_fields-keyed key ref [] at b = append_nil (b key)
  observe_fields-keyed key ref ((field, v) ∷ fs) at b =
      observe_fields-keyed key ref fs at (observe_value (key_of ref field) at (numeric conv v) b)
      ∙ ap (λ l. l ++ keyed conv key ref fs at)
          (observe_value_lem key (key_of ref field) at (numeric conv v) b)
      ∙ append_assoc (b key) _ (keyed conv key ref fs at)

  -- The samples that matter to a cutoff survive all pruning done before it.
  observe_all-keyed_history :
      (span : Duration) (key : String) (c : Time) (os : List Observation) (b : Buffers)
      → All (λ o. add o.now (negate span) <ℤ c) os
      → select (recent c) (observe_all conv span os b key)
        ≡ select (recent c) (b key) ++ select (recent c) (keyed_history conv key os)
  unfolding observe_all keyed_history observe select
  observe_all-keyed_history span key c [] b early = append_nil _
  observe_all-keyed_history span key c (o ∷ os) b early =
      let b1 = observe_fields conv o.ref o.fields o.at b in
      let m = keyed conv key o.ref o.fields o.at in
      observe_all-keyed_history span key c os (prune span o.now b1) early.1
      ∙ ap (λ l. l ++ select (recent c) (keyed_history conv key os))
          (select-prune span o.now c b1 key early.0
            ∙ ap (select (recent c)) (observe_fields-keyed key o.ref o.fields o.at b)
            ∙ select-append (recent c) (b key) m)
      ∙ append_assoc (select (recent c) (b key)) (select (recent c) m) _
      ∙ ap (λ l. select (recent c) (b key) ++ l)
          (sym (select-append (recent c) m (keyed_history conv key os)))

  All-early :
      (os : List Observation) (now' : Time) (window span : Duration)
      → All (λ o. o.now ≤ℤ now') os
      → window <ℤ span
      → All (λ o. add o.now (negate span) <ℤ add now' (negate window)) os
  All-early [] now' window span before wide = tt
  All-early (o ∷ os) now' window span before wide =
      (cutoff_lem o.now now' window span before.0 wide, All-early os now' window span before.1 wide)

module _ (conv : Conversions) (ref field : String) where
  -- The samples that an observation makes of the field of the input.
  unfoldable pub made : String → Fields → Time → List Sample
  made r [] at = []
  made r ((f, v) ∷ fs) at = sample_of (r == ref && f == field) at (numeric conv v) ++ made r fs at

  -- All samples that were ever observed of the field, in order.
  unfoldable pub history : List Observation → List Sample
  history [] = []
  history (o ∷ os) = made o.ref o.fields o.at ++ history os

  -- No other pair of an input and a field reads the same once they are joined by a slash.
  abbrev pub Apart : List Observation → Type 0
  Apart os =
      All
        (λ o.
          All
            (λ p.
              (((o.ref <> "/") <> p.0) == ((ref <> "/") <> field)) ≡ (o.ref == ref && p.0 == field))
            o.fields)
        os

  keyed-made :
      (r : String) (fs : Fields) (at : Time)
      → All (λ p. (((r <> "/") <> p.0) == ((ref <> "/") <> field)) ≡ (r == ref && p.0 == field)) fs
      → keyed conv (key_of ref field) r fs at ≡ made r fs at
  unfolding keyed made
  keyed-made r [] at apart = refl
  keyed-made r ((f, v) ∷ fs) at apart =
      let flipped = eq_sym (key_of ref field) (key_of r f) ∙ apart.0 in
      ap₂ (λ b l. sample_of b at (numeric conv v) ++ l) flipped (keyed-made r fs at apart.1)

  keyed_history-history :
      (os : List Observation) → Apart os → keyed_history conv (key_of ref field) os ≡ history os
  unfolding keyed_history history
  keyed_history-history [] apart = refl
  keyed_history-history (o ∷ os) apart =
      ap₂ (λ l m. l ++ m) (keyed-made o.ref o.fields o.at apart.0)
        (keyed_history-history os apart.1)

  -- Pruning never shows. After any observations, a read of a window gives all samples of the field
  -- of the input that were ever observed and are not older than the window, in the order of the
  -- calls. No other input and field among the observations read the same joined by a slash; the
  -- window is shorter than the span that is kept, and the clock at the end of the read is not behind
  -- the clock at any call before.
  pub samples_exact :
      (span : Duration) (os : List Observation) (window : Duration) (now now' : Time)
      → Apart os
      → All (λ o. o.now ≤ℤ now') os
      → now ≤ℤ now'
      → window <ℤ span
      → (samples span ref field window now now' (observe_all conv span os (λ k. []))).0
        ≡ select (recent (add now' (negate window))) (history os)
  unfolding samples select
  samples_exact span os window now now' apart clock later wide =
      let c = add now' (negate window) in
      select-prune span now c (observe_all conv span os (λ k. [])) (key_of ref field)
        (cutoff_lem now now' window span later wide)
      ∙ observe_all-keyed_history conv span (key_of ref field) c os (λ k. [])
          (All-early conv os now' window span clock wide)
      ∙ ap (select (recent c)) (keyed_history-history os apart)
