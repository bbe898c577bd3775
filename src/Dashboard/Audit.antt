-- ===== src/Dashboard/Audit.antt =====
-- internal/dashboard/audit.go: the audit log in memory, by tenant.
use kubeguard.Prelude.{String, List, [], ◌∷◌, ◌++◌, Option, none, some, Dict, get, set, delete}

pub record AuditEntry : Type 0 where
  pub at : String
  pub subject : String
  pub tenant : String
  pub action : String
  pub resource : String
  pub result : String

abbrev pub MemAuditLog : Type 0
MemAuditLog = Dict (List AuditEntry)

-- `a.entries[tenant]`
unfoldable pub entries : Option (List AuditEntry) → List AuditEntry
entries none = []
entries (some es) = es

unfoldable pub write : AuditEntry → MemAuditLog → MemAuditLog
unfolding entries
write e a = set e.tenant (entries (get e.tenant a) ++ e ∷ []) a

unfoldable pub list_entries : String → MemAuditLog → List AuditEntry
unfolding entries
list_entries tenant a = entries (get tenant a)

unfoldable pub purge_tenant : String → MemAuditLog → MemAuditLog
purge_tenant tenant a = delete tenant a
