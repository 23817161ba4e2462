-- ===== src/Server/World.antt =====
-- The state of the server, transactions, and calls of the storage.
use personal_space.Prelude.{
  ℕ, Bool, String, List, ◌∷◌, Option, Result, ok, err, Exec, if◌then◌else◌,
}
use personal_space.Database.Rows.{Database}
use personal_space.Storage.Files.{Files}

-- A row of audit_logs: who, which action, on what.
pub record AuditEntry : Type 0 where
  pub user : Option ℕ
  pub action : String
  pub target : Option ℕ

pub record World : Type 0 where
  pub db : Database
  pub disk : Files
  pub audit : List AuditEntry
  pub uploaded_total : ℕ

-- A status code and what the handler writes with it.
pub record Response (B : Type 0) : Type 0 where
  pub code : ℕ
  pub body : B

abbrev pub respond : {B : Type 0} → ℕ → B → Response B
respond c b = record { code = c; body = b }

-- A handler, or a part of one: it answers by `stop`, or at its end.
abbrev pub Action : Type 0 → Type 0 → Type 0
Action B A = Exec World (Response B) A

abbrev pub Handler : Type 0 → Type 0
Handler B = Action B (Response B)

abbrev pub rollback : {E A : Type 0} → World → Result E A × World → Result E A × World
rollback before (ok a, after) = (ok a, after)
rollback before (err e, after) = (err e, record after { db = before.db })

-- `tx := Begin; defer tx.Rollback`: the writes to the database stay only if the block gets through
-- its Commit. The storage and the audit log are not part of the transaction.
abbrev pub transaction : {E A : Type 0} → Exec World E A → Exec World E A
transaction m before = rollback before (m before)

abbrev pub on_disk : {E A : Type 0} → (Files → A × Files) → Exec World E A
on_disk m s = let (r, disk) = m s.disk in (ok r, record s { disk = disk })

-- Handler.insertAudit: a failure is ignored.
abbrev pub insert_audit : {E : Type 0} → Bool → AuditEntry → Exec World E (Unit {0})
insert_audit fault entry s = (ok tt, if fault then s else record s { audit = entry ∷ s.audit })

-- The answer of a handler that has ended, early or not, and the state it leaves.
abbrev pub answered : {B : Type 0} → Result (Response B) (Response B) × World → Response B × World
answered (ok r, s) = (r, s)
answered (err r, s) = (r, s)

abbrev pub serve : {B : Type 0} → Handler B → World → Response B × World
serve h s = answered (h s)
