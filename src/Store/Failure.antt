-- ===== src/Store/Failure.antt =====
-- What a statement that fails leaves behind.
use signalwatch.Base.{Bool, ◌≡◌, refl, Bool-cases, inl, inr}
use signalwatch.Base.Result.{Error, err, Exec}
use signalwatch.Store.Db.{Db, fault, query, exec, exec_checked}
use signalwatch.Store.Incidents.Atomic.{SameTables}

-- An operation that fails leaves every table as it was.
abbrev pub IsAtomic : {A : Type 0} → Exec Db A → Type 0
IsAtomic m = (db : Db) (e : Error) → (m db).0 ≡ err e → SameTables db (m db).1

pub SameTables-trans : (a b c : Db) → SameTables a b → SameTables b c → SameTables a c
SameTables-trans a b c h k = simp (h) at k

pub query-SameTables : {A : Type 0} (f : Db → A) (db : Db) → SameTables db (query f db).1
unfolding query
query-SameTables f db = elim (Bool-cases (fault db.faults)) [
  | inl e ↦ simp (e) refl
  | inr e ↦ simp (e) refl
]

pub exec-IsAtomic : (f : Db → Db) → IsAtomic (exec f)
unfolding exec
exec-IsAtomic f db e = elim (Bool-cases (fault db.faults)) [
  | inl b ↦ simp (b) (λ h. refl)
  | inr b ↦ simp (b) (λ h. cc)
]

pub exec_checked-IsAtomic : (accepts : Db → Bool) (f : Db → Db) → IsAtomic (exec_checked accepts f)
unfolding exec_checked
exec_checked-IsAtomic accepts f db e = elim (Bool-cases (fault db.faults)) [
  | inl b ↦ simp (b) (λ h. refl)
  | inr b ↦ elim (Bool-cases (accepts db)) [
    | inl c ↦ simp (b, c) (λ h. cc)
    | inr c ↦ simp (b, c) (λ h. refl)
  ]
]
