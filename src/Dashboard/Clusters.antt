-- ===== src/Dashboard/Clusters.antt =====
-- The handlers of internal/dashboard/api.go that register and delete clusters and start scans. A body
-- that is `none` is no JSON.
use Prim.Native.Char.{code}
use kubeguard.Prelude.{
  ℕ, suc, String, Bool, true, not, ◌&&◌, ◌||◌, List, Option, none, some, ◌==◌, nat_eq, ltb, leb,
  if◌then◌else◌,
}
use kubeguard.Dashboard.{Cluster, ScanStatus, Scan, is_some}
use kubeguard.Dashboard.Store.{cluster_named, register_cluster, delete_cluster}
use kubeguard.Dashboard.Reads.{get_cluster}
use kubeguard.Dashboard.Broker.{enqueue}
use kubeguard.Dashboard.Sources.{add_source, remove_source}
use kubeguard.Dashboard.Auth.{allowed, Principal, Response, Handler, log, write_error}
use kubeguard.Dashboard.Scans.{ScannerRun, Stamps, run_scan_with_id}

-- A character of a cluster id.
unfoldable pub is_id_char : ℕ → Bool
is_id_char c =
    (leb b'a' c && leb c b'z')
    || (leb b'A' c && leb c b'Z')
    || (leb b'0' c && leb c b'9')
    || nat_eq c b'.'
    || nat_eq c b'_'
    || nat_eq c b'-'

unfoldable pub all_id_chars : String → Bool
unfolding is_id_char
all_id_chars String.[] = true
all_id_chars (String.◌∷◌ c s) = is_id_char (code c) && all_id_chars s

-- The number of characters; a text with a character of more than one byte is refused either way.
unfoldable pub char_count : String → ℕ
char_count String.[] = 0
char_count (String.◌∷◌ c s) = suc (char_count s)

unfoldable pub valid_cluster_id : String → Bool
unfolding all_id_chars char_count
valid_cluster_id id = not (id == "") && not (ltb 253 (char_count id)) && all_id_chars id

pub record ClusterBody : Type 0 where
  pub id : String
  pub name : String
  pub source : String

-- `c, _ := a.store.GetCluster(…)`
unfoldable pub or_zero : Option Cluster → Cluster
unfolding cluster_named
or_zero none = cluster_named ""
or_zero (some c) = c

-- `enabled` is `a.registrar != nil`.
module _ (trim : String → String) (exists : String → Bool) (enabled : Bool) where
  unfoldable pub handle_register_cluster : String → Principal → Option ClusterBody → Handler Cluster
  unfolding valid_cluster_id add_source register_cluster get_cluster or_zero log allowed write_error
  handle_register_cluster now p none a =
      if not enabled
      then write_error 501 "dynamic cluster registration is not enabled" a
      else write_error 400 "invalid JSON body" a
  handle_register_cluster now p (some b) a =
      if not enabled
      then write_error 501 "dynamic cluster registration is not enabled" a
      else if b.id == "" || b.source == ""
      then write_error 400 "id and source are required" a
      else if not (valid_cluster_id b.id)
      then write_error 400 "invalid cluster id" a
      else elim (add_source trim exists b.id b.source a.sources) [
        | none ↦ write_error 400 "invalid source" a
        | some sources ↦
            let c = record (cluster_named b.id) { name = if b.name == "" then b.id else b.name } in
            let store = register_cluster p.tenant c a.store in
            some (
              Response.done 201 (or_zero (get_cluster p.tenant b.id store)),
              log (allowed now p "cluster.write" b.id)
                  (record a { store = store; sources = sources }),
            )
      ]

module _ (enabled : Bool) where
  unfoldable pub handle_delete_cluster : String → Principal → String → Handler (Unit {0})
  unfolding valid_cluster_id delete_cluster remove_source log allowed write_error
  handle_delete_cluster now p id a =
      if not enabled
      then write_error 501 "dynamic cluster registration is not enabled" a
      else if not (valid_cluster_id id)
      then write_error 400 "invalid cluster id" a
      else (let (ok, store) = delete_cluster p.tenant id a.store in
          if not ok
          then write_error 404 "unknown cluster" (record a { store = store })
          else some (
            Response.done 204 tt,
            log (allowed now p "cluster.delete" id)
                (record a { store = store; sources = remove_source id a.sources }),
          ))

module _ (digest : List String → String) where
  -- The scan inside the request, or its place in the queue.
  unfoldable pub start_scan : ℕ → ScannerRun → Stamps → Principal → String → String → Handler Scan
  unfolding enqueue run_scan_with_id write_error
  start_scan queue_size r t p id scan_id a = elim a.pool [
    | none ↦
        let (scan, a') = run_scan_with_id digest r t p.tenant id p.subject scan_id a in
        some (Response.done 202 scan, a')
    | some jobs ↦
        elim (enqueue queue_size
          (record { tenant = p.tenant; cluster_id = id; subject = p.subject; scan_id = scan_id })
          jobs) [
            | none ↦ write_error 503 "scan queue full, retry shortly" a
            | some jobs' ↦ some (
              Response.done 202 (record {
                id = scan_id;
                cluster_id = id;
                status = ScanStatus.scan_queued;
                started_at = "";
                finished_at = "";
                total_findings = 0;
              }),
              record a { pool = some jobs' },
            )
          ]
  ]

  -- The body's `clusterId`, or `none` where there is no JSON. A scanner that is nil is `none`.
  unfoldable pub handle_trigger_scan :
      ℕ → Option ScannerRun → Stamps → Principal → Option String → String → Handler Scan
  unfolding valid_cluster_id get_cluster is_some start_scan write_error
  handle_trigger_scan queue_size r t p none scan_id a = write_error 400 "clusterId is required" a
  handle_trigger_scan queue_size r t p (some id) scan_id a =
      if id == ""
      then write_error 400 "clusterId is required" a
      else if not (valid_cluster_id id)
      then write_error 400 "invalid clusterId" a
      else if not (is_some (get_cluster p.tenant id a.store))
      then write_error 404 "unknown cluster" a
      else elim r [
        | none ↦ write_error 503 "no scanner configured" a
        | some run ↦ start_scan queue_size run t p id scan_id a
      ]
