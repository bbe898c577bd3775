-- ===== src/Attack/Linked.antt =====
-- internal/attack/engine.go: the hops of a path form one chain.
use kubeguard.Prelude.{
  ℕ, suc, ◌+◌, String, Bool, false, List, [], ◌∷◌, ◌++◌, some, ◌≡◌, refl, ◌⊎◌, inl, inr, arith,
  length, ltb, All, In, Option-cases, sort_stable-All,
}
use kubeguard.Api.{Capability, Severity, rank, PathHop, AttackPath}
use kubeguard.Model.{Workload}
use kubeguard.Graph.{Graph}
use kubeguard.Attack.Engine.{
  Walk, add, path_severity, build_for_workload, paths_of, build_paths, number_paths, sort_paths,
  path_less,
}
use kubeguard.Attack.Keeps.{Causes, build_for_workload-keeps}

-- The hops after `n` others lead from one capability to another, numbered from `n + 1`.
abbrev pub Linked : ℕ → Capability → List PathHop → Capability → Type 0
Linked n c [] e = c ≡ e
Linked n c (h ∷ hs) e = (h.order ≡ n + 1) × (h.from ≡ c) × Linked (n + 1) h.to hs e

-- Where a path may start.
abbrev pub IsEntry : Capability → Type 0
IsEntry c = (c ≡ Capability.internet_ingress) ⊎ (c ≡ Capability.network_reachable)

Linked-append :
    (n : ℕ) (c e : Capability) (hs : List PathHop) (h : PathHop)
    → h.order ≡ n + length hs + 1
    → h.from ≡ e
    → Linked n c hs e
    → Linked n c (hs ++ h ∷ []) h.to
Linked-append n c e [] h o f l = (omega (arith, o), cc, refl)
Linked-append n c e (x ∷ xs) h o f l =
    (l.0, l.1, Linked-append (n + 1) x.to e xs h (omega (arith, o)) f l.2)

-- A walk that has come from `c` to its current capability.
abbrev IsWalk : Walk → Type 0
IsWalk k = (c : Capability) × IsEntry c × Linked 0 c k.hops k.cur

add-IsWalk :
    (k : Walk) (to : Capability) (by : String) (tech : List String) (narr : String)
    → IsWalk k
    → Unit {0}
    → IsWalk (add k to by tech narr)
unfolding add
add-IsWalk k to by tech narr (c, i, l) j = (
  c,
  i,
  Linked-append 0 c k.cur k.hops
      (record {
        order = length k.hops + 1;
        from = k.cur;
        to = to;
        enabled_by = by;
        technique = tech;
        narrative = narr;
      })
      (omega arith) refl l,
)

pub any_cause : (g : Graph) (w : Workload) → Causes (λ to by. Unit {0}) g w
any_cause g w = record {
  exposed = λ svc e. tt;
  breakout = λ h. tt;
  node = λ h. tt;
  token = λ h. tt;
  admin = λ h. tt;
  secrets = λ a h. tt;
  pods = λ a h. tt;
  lateral = λ h. tt;
}

-- A path whose hops lead from an entry to some capability, and that is at least high.
pub record IsPath (p : AttackPath) : Type 0 where
  pub first : Capability
  pub last : Capability
  pub entry : IsEntry first
  pub linked : Linked 0 first p.hops last
  pub worst : p.severity ≡ path_severity p.hops last
  pub is_high : ltb (rank p.severity) (rank Severity.high) ≡ false

build_for_workload-IsPath :
    (quote : String → String) (g : Graph) (w : Workload) (b : Bool) (p : AttackPath)
    → build_for_workload quote g w b ≡ some p
    → IsPath p
build_for_workload-IsPath quote g w b p h =
    let (k, walk, ends) =
      build_for_workload-keeps quote (λ to by. Unit {0}) IsWalk add-IsWalk g w (any_cause g w) b p
        (Capability.internet_ingress, inl refl, refl) (Capability.network_reachable, inr refl, refl)
        h in
    record {
      first = walk.0;
      last = k.cur;
      entry = walk.1;
      linked = rw ends.same_hops walk.2;
      worst = rw ends.same_hops ends.worst;
      is_high = ends.is_high;
    }

module _ (quote : String → String) (g : Graph) (b : Bool) (Q : AttackPath → Type 0) where
  paths_of-All :
      (ws : List Workload)
      → ((w : Workload) (p : AttackPath) → In w ws → build_for_workload quote g w b ≡ some p → Q p)
      → All Q (paths_of quote g b ws)
  unfolding paths_of
  paths_of-All [] q = tt
  paths_of-All (w ∷ ws) q =
      let rest = paths_of-All ws (λ v p i. q v p (inr i)) in
      elim (Option-cases (build_for_workload quote g w b)) [
        | inl e ↦ rw (e, paths_of) rest
        | inr (p, e) ↦ rw (e, paths_of) (q w p (inl refl) e, rest)
      ]

  number_paths-All :
      ((p : AttackPath) (id : String) → Q p → Q (record p { id = id }))
      → (i : ℕ) (ps : List AttackPath) → All Q ps
      → All Q (number_paths i ps)
  unfolding number_paths
  number_paths-All f i [] h = tt
  number_paths-All f i (p ∷ ps) h = (f p _ h.0, number_paths-All f (suc i) ps h.1)

  -- What every workload's path has, whatever its id, the paths of the graph have.
  pub build_paths-All :
      ((p : AttackPath) (id : String) → Q p → Q (record p { id = id }))
      → ((w : Workload) (p : AttackPath)
          → In w g.workloads
          → build_for_workload quote g w b ≡ some p
          → Q p)
      → All Q (build_paths quote g b)
  unfolding build_paths sort_paths
  build_paths-All f q =
      number_paths-All f 0 _
        (sort_stable-All path_less Q (paths_of quote g b g.workloads) (paths_of-All g.workloads q))

-- Every path of the graph is a chain: its first hop starts at the internet or at the network of
-- the cluster, each hop starts where the one before it ended, the hops are numbered from 1, and the
-- path has the severity that `pathSeverity` gives its hops, which is never below high.
pub build_paths-IsPath :
    (quote : String → String) (g : Graph) (b : Bool) → All IsPath (build_paths quote g b)
build_paths-IsPath quote g b =
    build_paths-All quote g b IsPath
      (λ p id h. record {
        first = h.first;
        last = h.last;
        entry = h.entry;
        linked = h.linked;
        worst = h.worst;
        is_high = h.is_high;
      })
      (λ w p i. build_for_workload-IsPath quote g w b p)
