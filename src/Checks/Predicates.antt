-- ===== src/Checks/Predicates.antt =====
-- The shared helpers of internal/checks/workload_checks.go: what makes a container dangerous.
use kubeguard.Prelude.{
  String, Bool, true, false, not, ◌&&◌, List, [], ◌∷◌, Option, none, some, ◌==◌, if◌then◌else◌, any,
  contains, after_last, before_first, upper_is, is_zero, is_positive,
}
use kubeguard.Model.{ContainerView, PodSpecView}

unfoldable pub effective_seccomp : ContainerView → PodSpecView → String
effective_seccomp c pod =
    if c.seccomp_profile == "" then pod.security_context.seccomp_profile else c.seccomp_profile

-- The container's setting, or the pod's where it has none.
abbrev pub or_pod {ℓ} : {A : Type ℓ} → Option A → Option A → Option A
or_pod none pod = pod
or_pod (some a) pod = some a

-- `p != nil && test(*p)`
abbrev pub holds {ℓ} : {A : Type ℓ} → (A → Bool) → Option A → Bool
holds test none = false
holds test (some a) = test a

-- `p != nil && *p`
abbrev pub is_true : Option Bool → Bool
is_true none = false
is_true (some b) = b

unfoldable pub runs_as_root : ContainerView → PodSpecView → Bool
runs_as_root c pod =
    let non_root = or_pod c.run_as_non_root pod.security_context.run_as_non_root in
    let user = or_pod c.run_as_user pod.security_context.run_as_user in
    if holds is_zero user
    then true
    else if is_true non_root
    then false
    else if holds is_positive user
    then false
    else true

abbrev pub sensitive_host_paths : List String
sensitive_host_paths =
    "/" ∷ "/var/run" ∷ "/var/run/docker.sock" ∷ "/run/docker.sock"
    ∷ "/run/containerd/containerd.sock" ∷ "/var/run/crio/crio.sock" ∷ "/proc" ∷ "/var/lib/kubelet"
    ∷ "/etc/kubernetes" ∷ "/var/lib/docker" ∷ []

unfoldable pub is_sensitive_host_path : String → Bool
unfolding any
is_sensitive_host_path path = any (λ p. p == path) sensitive_host_paths

abbrev pub dangerous_caps : List String
dangerous_caps =
    "ALL" ∷ "SYS_ADMIN" ∷ "NET_ADMIN" ∷ "SYS_PTRACE" ∷ "SYS_MODULE" ∷ "SYS_BOOT" ∷ "SYS_RAWIO"
    ∷ "DAC_READ_SEARCH" ∷ "BPF" ∷ "NET_RAW" ∷ []

-- `dangerousCaps[strings.ToUpper(name)]`
unfoldable pub is_dangerous_cap : String → Bool
unfolding any upper_is
is_dangerous_cap name = any (upper_is name) dangerous_caps

-- The text after the last slash, or all of it.
abbrev pub image_name : String → String
image_name image = elim (after_last b'/' image) [ none ↦ image | some name ↦ name ]

unfoldable pub is_mutable_image : String → Bool
unfolding contains after_last
is_mutable_image image =
    if contains "@sha256:" image
    then false
    else elim (after_last b':' (image_name image)) [ none ↦ true | some tag ↦ tag == "latest" ]

-- `strings.EqualFold(d, "ALL")`: these letters have no other case forms.
unfoldable pub drops_all : List String → Bool
unfolding any upper_is
drops_all drop = any (λ d. upper_is d "ALL") drop

unfoldable pub implicit_registry : String → Bool
unfolding contains before_first
implicit_registry image = if image == "" then false else elim (before_first b'/' image) [
  | none ↦ true
  | some first ↦ not (contains "." first) && not (contains ":" first) && not (first == "localhost")
]
