-- ===== src/Api/Handlers/Reads/Bounds.antt =====
-- How much the read-only handlers send, and of what.
use signalwatch.Base.{
  zero, suc, ltb, if◌then◌else◌, ℕ, Bool, true, false, not, ◌&&◌, String, ◌==◌, eq_iff, ◌≡◌, ◌≢◌,
  ◌≤◌, refl, subst, sym, arith, List, map, Option, none, some, Bool-cases, inl, inr,
}
use signalwatch.Base.Int.{ℤ, pos, negsuc}
use signalwatch.Base.Lists.{All, length, take, select, sort_by}
use signalwatch.Base.Pages.{
  All-take, All-select_test, All-select, All-sort_by, All-map, All-imp, length-take, length-select,
  length-map,
}
use signalwatch.Base.Result.{Result, ok, err}
use signalwatch.Base.Time.{Time, is_zero, before}
use signalwatch.Subscriber.{Incident}
use signalwatch.Store.Db.{Db, IncidentRow, query, fault}
use signalwatch.Store.Incidents
use signalwatch.Api.Query.{Parsers, clamp, parse_limit, parse_since}
use signalwatch.Api.Reply.{Reply, sent, calling, calling_cases, Sends, of_Sends}
use signalwatch.Api.Handlers.Reads.{
  Export, fetch, format_of, since_filter, list_incidents, export_incidents, export_as, written,
}

-- A result of the store, where there is one.
abbrev Gets : {A : Type 0} → (A → Type 0) → Result A → Type 0
Gets P (ok a) = P a
Gets P (err e) = Unit

query-Gets : {A : Type 0} (P : A → Type 0) (f : Db → A) (db : Db) → P (f db) → Gets P (query f db).0
unfolding query
query-Gets P f db h = elim (Bool-cases (fault db.faults)) [
  | inl e ↦ simp (e) tt
  | inr e ↦ simp (e) h
]

-- At most so many incidents, all of the rule where one is named.
abbrev pub IsPage : String → ℕ → List Incident → Type 0
IsPage rule n rows = (length rows ≤ n) × (rule ≢ "" → All (λ inc. inc.rule_id ≡ rule) rows)

map-take-le : (n : ℕ) (rows : List IncidentRow) → length (map Incidents.of_row (take n rows)) ≤ n
map-take-le n rows =
    subst (λ l. l ≤ n) (sym (length-map Incidents.of_row (take n rows))) (length-take n rows)

rule_rows :
    (rule : String) (n : ℕ) (incidents : List IncidentRow)
    → All
        (λ inc. inc.rule_id ≡ rule)
        (map Incidents.of_row
          (take n (sort_by Incidents.latest_first (select (λ r. r.rule_id == rule) incidents))))
unfolding Incidents.of_row
rule_rows rule n incidents =
    let of_rule : IncidentRow → Type 0 = λ r. r.rule_id ≡ rule in
    let rows = select (λ r. r.rule_id == rule) incidents in
    All-map _ Incidents.of_row _ (
      All-take of_rule n _ (
        All-sort_by of_rule Incidents.latest_first rows (
          All-imp (λ r. (r.rule_id == rule) ≡ true) of_rule rows
            (λ r e. (eq_iff r.rule_id rule).0 e)
            (All-select_test (λ r. r.rule_id == rule) incidents))))

fetch-IsPage :
    (rule : String) (limit : ℤ) (db : Db)
    → Gets (IsPage rule (Incidents.page limit)) (fetch rule limit db).0
unfolding Incidents.list Incidents.list_for_rule Incidents.of_row
fetch-IsPage rule limit db = elim (Bool-cases (rule == "")) [
  | inl empty ↦
      simp (empty)
        (query-Gets _ _ db (map-take-le _ _, λ full. absurd (full ((eq_iff rule "").0 empty))))
  | inr full ↦ simp (full) (query-Gets _ _ db (map-take-le _ _, λ _. rule_rows rule _ db.incidents))
]

-- A promise about every reply with a body, from a page of the store.
fetched :
    {A : Type 0} (Q : A → Db → Type 0) (rule : String) (limit : ℤ)
    (f : List Incident → Db → Reply A × Db) (db : Db)
    → ((rows : List Incident) (db' : Db)
        → IsPage rule (Incidents.page limit) rows
        → Sends Q (f rows db'))
    → Sends Q (calling 500 (fetch rule limit) f db)
fetched Q rule limit f db rest =
    calling_cases (Sends Q) 500 (fetch rule limit) f db
      (λ rows e.
        rest rows (fetch rule limit db).1
          (subst (Gets (IsPage rule (Incidents.page limit))) e (fetch-IsPage rule limit db)))
      (λ _ _. tt)

-- The limit that a text asks for: its number up to 1000, and 100 where it is not a positive number.
unfoldable pub asked : Option ℤ → ℕ
asked none = 100
asked (some (negsuc n)) = 100
asked (some (pos zero)) = 100
asked (some (pos (suc n))) = if ltb n 1000 then suc n else 1000

clamp-asked :
    (n : Option ℤ) → (Incidents.page (clamp n) ≡ asked n) × (1 ≤ asked n) × (asked n ≤ 1000)
unfolding clamp Incidents.page asked
clamp-asked none = ground arith
clamp-asked (some (negsuc n)) = ground arith
clamp-asked (some (pos zero)) = ground arith
clamp-asked (some (pos (suc n))) = ground arith

module _ (parsers : Parsers) where
  open parsers use {trim_space}

  -- The limit of a request, where no text counts as no number.
  abbrev pub limit_of : String → ℕ
  limit_of q = asked (if q == "" then none else parsers.atoi q)

  page_of_limit :
      (q : String)
      → (Incidents.page (parse_limit parsers q) ≡ limit_of q)
        × (1 ≤ limit_of q)
        × (limit_of q ≤ 1000)
  unfolding parse_limit Incidents.page asked
  page_of_limit q = elim (Bool-cases (q == "")) [
    | inl empty ↦ simp (empty) (ground arith)
    | inr full ↦ simp (full) (clamp-asked (parsers.atoi q))
  ]

  -- A list of incidents is bounded: every body that the handler sends has at most as many
  -- incidents as its text asks for, which is the number in it up to 1000, and 100 where there is no
  -- positive number in it; and where the request names a rule they are all of that rule.
  pub incidents_bounded :
      (rule limit : String) (code : ℕ) (rows : List Incident) (db : Db)
      → (list_incidents parsers rule limit db).0 ≡ sent code rows
      → (1 ≤ limit_of limit)
        × (limit_of limit ≤ 1000)
        × IsPage (trim_space rule) (limit_of limit) rows
  unfolding list_incidents
  incidents_bounded rule limit code rows db h =
      let n = parse_limit parsers limit in
      let (same, low, high) = page_of_limit limit in
      let Q : List Incident → Db → Type 0 =
        λ rows _. IsPage (trim_space rule) (limit_of limit) rows in
      (
        low,
        high,
        of_Sends Q _ code rows
            (fetched Q (trim_space rule) n _ db
              (λ rows _ page. subst (λ k. IsPage (trim_space rule) k rows) same page))
            h,
      )

  -- None of the incidents triggered before the time, where there is one.
  abbrev pub NotBefore : Time → List Incident → Type 0
  NotBefore t rows = is_zero t ≡ false → All (λ inc. before inc.triggered_at t ≡ false) rows

  -- The file holds at most a hundred incidents, of the rule and not before the time.
  abbrev pub IsExport : String → String → Time → Export → Type 0
  IsExport format rule t out =
      (rows : List Incident) × (out ≡ written parsers format rows)
      × IsPage rule 100 rows
      × NotBefore t rows

  filtered :
      (rule : String) (t : Time) (rows : List Incident)
      → IsPage rule 100 rows
      → IsPage rule 100 (since_filter t rows) × NotBefore t (since_filter t rows)
  filtered rule t rows h = elim (Bool-cases (is_zero t)) [
    | inl zero_t ↦ simp (zero_t) (h, λ e. cc)
    | inr set ↦
        let keep : Incident → Bool = λ inc. not (before inc.triggered_at t) in
        let short = length-select keep rows in
        simp (set) (
          (ground (arith, short, h.0), λ full. All-select _ keep rows (h.1 full)),
          λ _.
              All-imp (λ inc. keep inc ≡ true) (λ inc. before inc.triggered_at t ≡ false) _
                (λ inc e. ground arith) (All-select_test keep rows),
        )
  ]

  export_as-IsExport :
      (format since rule : String) (now t : Time) (db : Db)
      → parse_since parsers since now ≡ ok t
      → Sends
          (λ out _. IsExport format (trim_space rule) t out)
          (export_as parsers format since rule now db)
  unfolding export_as Incidents.page
  export_as-IsExport format since rule now t db is = simp (is) (
      fetched (λ out _. IsExport format (trim_space rule) t out) (trim_space rule) (pos 0) _ db
        (λ rows _ page.
          let (kept, late) = filtered (trim_space rule) t rows page in
          (since_filter t rows, refl, kept, late)))

  -- An export is bounded too: every file that the handler sends holds at most one hundred
  -- incidents, however many are stored; where the request names a rule they are all of that rule,
  -- and where it gives a time none of them was triggered before it. The text of the time is one
  -- that is read.
  pub exports_bounded :
      (format since rule : String) (now t : Time) (code : ℕ) (out : Export) (db : Db)
      → parse_since parsers since now ≡ ok t
      → (export_incidents parsers format since rule now db).0 ≡ sent code out
      → IsExport (format_of parsers format) (trim_space rule) t out
  unfolding export_incidents
  exports_bounded format since rule now t code out db is h =
      let f = format_of parsers format in
      let Q : Export → Db → Type 0 = λ out _. IsExport f (trim_space rule) t out in
      let sends : Sends Q (export_incidents parsers format since rule now db) =
        elim (Bool-cases (not (f == "json") && not (f == "csv"))) [
          | inl bad ↦ simp (bad) tt
          | inr fine ↦ simp (fine) (export_as-IsExport f since rule now t db is)
        ] in
      of_Sends Q _ code out sends h
