-- ===== src/Dashboard/Sources.antt =====
-- internal/cli/clustersource.go: the sources of the clusters. `trim` is `strings.TrimSpace` and `exists`
-- tells whether `os.Stat` finds the path.
use kubeguard.Prelude.{
  String, Bool, not, ◌&&◌, List, Option, none, some, ◌==◌, if◌then◌else◌, has_prefix, MapRange,
  range_sorted, Dict, get, set, delete, keys,
}

abbrev pub SourceRegistry : Type 0
SourceRegistry = Dict String

-- `none` is an error, after which the registry is what it was.
unfoldable pub add_source :
    (String → String) → (String → Bool) → String → String → SourceRegistry → Option SourceRegistry
add_source trim exists id source s =
    if trim source == ""
    then none
    else if not (trim source == "live")
        && not (has_prefix "live:" (trim source))
        && not (exists (trim source))
    then none
    else some (set id (trim source) s)

unfoldable pub remove_source : String → SourceRegistry → SourceRegistry
remove_source id s = delete id s

unfoldable pub source : String → SourceRegistry → Option String
source id s = get id s

unfoldable pub ids : MapRange → SourceRegistry → List String
unfolding range_sorted
ids r s = range_sorted r (keys s)
