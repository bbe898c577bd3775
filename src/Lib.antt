-- ===== src/Lib.antt =====
-- KubeGuard: a scanner of Kubernetes resources for misconfigurations, attack paths and compliance.
--
-- The program loads resources, normalises them into a graph (internal/graph), runs checks over the
-- graph (internal/checks), chains its weaknesses into attack paths (internal/attack), evaluates
-- packs of compliance controls (internal/compliance), scores the findings by risk (internal/risk),
-- and assembles a report (internal/analyzer). A validating webhook (internal/webhook) runs the same
-- checks on one pod, and waivers (internal/waiver) accept findings until a date.
--
-- Prelude has the lists, texts, numbers, sorting and map iteration that the parts share: a Go map is
-- the list of its entries; the order of a range over it is a MapRange, any permutation of the keys;
-- sort.SliceStable is a stable insertion sort; texts are compared byte by byte, as Go does. Api is
-- pkg/api/types.go and Model is internal/model/types.go. Graph has the record of
-- internal/graph/graph.go and, below it, Decode (the raw structs of normalize.go), Normalize
-- (toWorkload and the others), Build (Build as a fold of add_resource over the resources), Resolve,
-- Rbac and Coverage. Checks has Check (Meta and its findings), Predicates, Containers, Pods,
-- RbacChecks and NetworkChecks (one _meta and one _run for each check), Profile and Scan (Registry,
-- Scan, SortFindings). Attack has Escape (predicates and tables), Text (titles and summaries) and
-- Engine: the variables hops and cur of buildForWorkload are the record Walk, and its stages are
-- enter, escape, harvest, spread and finish. Risk is internal/risk/risk.go, Waiver and Waiver.Load
-- are internal/waiver/waiver.go, Webhook is internal/webhook, Compliance has Pack, Evaluate and
-- Evidence, and Analyzer composes all of them. The other modules below these hold the proofs, and
-- Examples holds inputs and tests.
--
-- Dashboard is internal/dashboard, the multi-tenant service around the scans. Dashboard has the
-- records of store.go, lifecycle.go and memstore.go; Store the operations of MemStore that change
-- it, Reads those that read it, Merge MergeReports, and Run a sequence of them: each operation holds
-- the lock of the store, so that a run of the service is a list of operations. Lifecycle, Triage,
-- Lane and Routes are the triage of findings (lifecycle.go, lifecycle_api.go), Auth and Audit the
-- principals, roles and the audit log, Scans, Broker and Sources the scans with their retries,
-- events and sources, Clusters and Tenants the handlers that change clusters and tenants, Findings
-- and Paginate the listing of findings, and Router the routes of api.go that change the state. A
-- handler is a function from the state of the API to its response and the next state, and none is a
-- panic. Security has the middleware that refuses requests: the cap on bodies, the check of origins
-- and the rate limit. Report.Asff is buildASFF of internal/report/asff.go, Gate the severity gate of
-- internal/cli/exit.go and scan.go, History the records of internal/history/store.go, and Server the
-- service of internal/server/server.go: each scan is a step, and its handlers answer from the last
-- report.
--
-- Parameters: what encoding/json makes of a document (the record Decoder), strconv.Quote (quote),
-- strconv.Atoi (atoi), time.Parse and Time.Format (parse_time, format_time), functions on texts of
-- package strings (trim, lower, upper, equal_fold, split), SHA-256 over the parts of a key (digest),
-- bytes of a text (byte_len, first_bytes), the readings of the clock, what the scanner gives at each
-- attempt, and MapRange. All loops are structural recursion on lists, and the retries of a scan
-- recursion on the three attempts, so that no fuel is needed. Counters are natural numbers: they
-- count elements of a slice, or sum small constants. Where a request chooses a number, in the pages
-- of a listing, it is an int of 64 bits with its wrap-around. A float rate is kept as the expression
-- that computes it, since no modelled code reads it back.
--
-- Not modelled: the decoding of YAML, files and clusters (internal/loader), custom policies in CEL
-- (internal/policy; their findings are an argument of analyze), HTML, SARIF and GitOps output
-- (internal/report), the PostgreSQL store, the key set of JWTs, HTTP, metrics, tracing and logs of
-- the dashboard, the files of the history, hardening and the rest of the command line, which are
-- I/O, presentation, or later work.
pub mod Prelude
pub mod Api
pub mod Model
pub mod Graph
pub mod Checks
pub mod Attack
pub mod Risk
pub mod Waiver
pub mod Webhook
pub mod Compliance
pub mod Analyzer
pub mod Examples
pub mod Dashboard
pub mod Report
pub mod Gate
pub mod History
pub mod Server
