-- ===== src/Dashboard/WellFormed.antt =====
-- What holds of every partition of the store: its listing order and its clusters agree.
use kubeguard.Prelude.{
  ℕ, suc, ◌+◌, String, Bool, true, false, List, [], ◌∷◌, ◌++◌, none, some, ◌==◌, ◌≡◌, refl, ◌≢◌,
  inl, inr, arith, eq_iff, if◌then◌else◌, length, length-append, All, Bool-cases, Option-cases,
  none-some, get, set, get-set_same, get-set_other, get-set_cases, get-delete_same,
  get-delete_other, get-delete_cases,
}
use kubeguard.Api.{Report}
use kubeguard.Dashboard.{Cluster, ClusterState, TenantState, or_new, is_some}
use kubeguard.Dashboard.Store.{
  new_cluster_state, add_cluster, register_in, remove_first, delete_in, scan_of, record_in,
  cluster_named, record_at,
}

-- How often the id stands in the list.
unfoldable pub count : String → List String → ℕ
count id [] = 0
count id (j ∷ js) = let rest = count id js in if j == id then suc rest else rest

unfoldable pub bit : Bool → ℕ
bit b = if b then 1 else 0

-- The summary of a cluster is that of its latest report.
unfoldable pub IsSummary : ClusterState → Type 0
IsSummary cs = elim cs.latest [
  | none ↦ cs.scans ≡ []
  | some rep ↦ cs.meta.total_findings ≡ length rep.findings
]

-- A cluster under its own id: its scans are its own, one for each snapshot of its history.
pub record IsCluster (id : String) (cs : ClusterState) : Type 0 where
  pub own : cs.meta.id ≡ id
  pub scanned : All (λ s. s.cluster_id ≡ id) cs.scans
  pub paired : length cs.scans ≡ length cs.history
  pub summary : IsSummary cs

-- The order lists each registered cluster once, and no other.
pub record IsPartition (ts : TenantState) : Type 0 where
  pub listed : (id : String) → count id ts.order ≡ bit (is_some (get id ts.clusters))
  pub sound : (id : String) (cs : ClusterState) → get id ts.clusters ≡ some cs → IsCluster id cs

count-append :
    (id j : String) (l : List String) → count id (l ++ j ∷ []) ≡ count id l + bit (j == id)
unfolding count bit
count-append id j [] = ground arith
count-append id j (x ∷ xs) = ground (arith, count-append id j xs)

count-remove_other :
    (id j : String) (l : List String) → j ≢ id → count id (remove_first j l) ≡ count id l
unfolding count remove_first
count-remove_other id j [] n = refl
count-remove_other id j (x ∷ xs) n =
    ground (arith, count-remove_other id j xs n, eq_iff x id, eq_iff x j)

count-remove_same :
    (id : String) (l : List String) → count id l ≡ 1 → count id (remove_first id l) ≡ 0
unfolding count remove_first
count-remove_same id [] h = absurd (omega arith)
count-remove_same id (x ∷ xs) h = ground (arith, count-remove_same id xs)

pub or_new-IsPartition : IsPartition (or_new none)
unfolding or_new count bit is_some get
or_new-IsPartition = record { listed = λ id. refl; sound = λ id cs h. absurd (none-some h) }

new-IsCluster : (c : Cluster) → IsCluster c.id (new_cluster_state c)
unfolding new_cluster_state IsSummary
new-IsCluster c = record { own = refl; scanned = tt; paired = refl; summary = refl }

record_in-IsCluster :
    (id scan_id : String) (rep : Report) (at : String) (cs : ClusterState)
    → IsCluster id cs
    → IsCluster id (record_in id scan_id rep at cs)
unfolding record_in scan_of IsSummary
record_in-IsCluster id scan_id rep at cs w = record {
  own = w.own;
  scanned = (refl, w.scanned);
  paired = omega (arith, w.paired, length-append cs.history);
  summary = refl;
}

add_cluster-IsPartition :
    (id : String) (cs : ClusterState) (ts : TenantState)
    → is_some (get id ts.clusters) ≡ false
    → IsCluster id cs
    → IsPartition ts
    → IsPartition (add_cluster id cs ts)
unfolding add_cluster bit is_some
add_cluster-IsPartition id cs ts new c w = record {
  listed = λ j. elim (Bool-cases (id == j)) [
    | inl e ↦
        ground (
          arith,
          eq_iff id j,
          count-append j id ts.order,
          w.listed j,
          get-set_same j cs ts.clusters,
        )
    | inr n ↦ ground (
      arith,
      eq_iff id j,
      count-append j id ts.order,
      w.listed j,
      get-set_other j id cs ts.clusters,
    )
  ];
  sound = λ j cs' h. elim (get-set_cases j id cs cs' ts.clusters h) [
    | inl (e, e') ↦ rw (← e, e') c
    | inr old ↦ w.sound j cs' old
  ];
}

pub register_in-IsPartition :
    (c : Cluster) (ts : TenantState) → IsPartition ts → IsPartition (register_in c ts)
unfolding register_in
register_in-IsPartition c ts w = elim (Bool-cases (is_some (get c.id ts.clusters))) [
  | inl y ↦ rw y w
  | inr n ↦ rw n (add_cluster-IsPartition c.id _ ts n (new-IsCluster c) w)
]

pub delete_in-IsPartition :
    (id : String) (ts : TenantState)
    → is_some (get id ts.clusters) ≡ true
    → IsPartition ts
    → IsPartition (delete_in id ts)
unfolding delete_in bit is_some
delete_in-IsPartition id ts here w = record {
  listed = λ j. elim (Bool-cases (id == j)) [
    | inl e ↦ ground (
      arith,
      eq_iff id j,
      count-remove_same id ts.order,
      w.listed id,
      get-delete_same j ts.clusters,
    )
    | inr n ↦ ground (
      arith,
      eq_iff id j,
      count-remove_other j id ts.order,
      w.listed j,
      get-delete_other j id ts.clusters,
    )
  ];
  sound = λ j cs h. w.sound j cs (get-delete_cases j id cs ts.clusters h).1;
}

-- A state that replaces the one of a registered cluster.
replace-IsPartition :
    (id : String) (cs old : ClusterState) (ts : TenantState)
    → get id ts.clusters ≡ some old
    → IsCluster id cs
    → IsPartition ts
    → IsPartition (record ts { clusters = set id cs ts.clusters })
unfolding bit is_some
replace-IsPartition id cs old ts here c w = record {
  listed = λ j. elim (Bool-cases (id == j)) [
    | inl e ↦ ground (arith, eq_iff id j, w.listed j, get-set_same j cs ts.clusters)
    | inr n ↦ ground (arith, eq_iff id j, w.listed j, get-set_other j id cs ts.clusters)
  ];
  sound = λ j cs' h. elim (get-set_cases j id cs cs' ts.clusters h) [
    | inl (e, e') ↦ rw (← e, e') c
    | inr older ↦ w.sound j cs' older
  ];
}

pub record_at-IsPartition :
    (id scan_id : String) (rep : Report) (at : String) (ts : TenantState)
    → IsPartition ts
    → IsPartition (record_at id scan_id rep at ts)
unfolding record_at is_some
record_at-IsPartition id scan_id rep at ts w = elim (Option-cases (get id ts.clusters)) [
  | inl e ↦
      rw (e, record_at)
        (add_cluster-IsPartition id _ ts (rw e refl)
          (record_in-IsCluster id scan_id rep at _
            (unfold cluster_named in new-IsCluster (cluster_named id)))
          w)
  | inr (cs, e) ↦
      rw (e, record_at)
        (replace-IsPartition id _ cs ts e
          (record_in-IsCluster id scan_id rep at cs (w.sound id cs e)) w)
]
