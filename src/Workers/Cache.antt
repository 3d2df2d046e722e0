-- ===== src/Workers/Cache.antt =====
-- iib/workers/dogpile_cache.py. The region is a dict whose backend may drop entries.
pub mod Hit
use iib.Common.{String, Bool, true, false, Option, none, some, List, ◌++◌, any, map, if◌then◌else◌}
use iib.Common.Dict.{Dict, get, put}
use iib.Common.Text.{◌⧺◌}
use iib.Common.Find.{contains_text, join}
use iib.Exn.{ok}
use iib.Json.{Json, truthy}
use iib.Workers.Exec.{Env, World, Exec, pure, ◌>>=◌, ◌>>◌}

unfoldable pub skopeo_inspect_should_use_cache : (args : List String) → Bool
skopeo_inspect_should_use_cache args = any (contains_text "@sha256:") args

abbrev keyword : String × String → String
keyword (k, v) = k ⧺ "=" ⧺ v

unfoldable pub generate_cache_key :
    (fn : String) → (args : List String) → (kwargs : Dict String) → String
generate_cache_key fn args kwargs = fn ⧺ "|" ⧺ join "|" (args ++ map keyword kwargs)

-- `dogpile_region.get(key)`, and whether the value found is true
abbrev pub region_get : Env → String → World → Option Json
region_get env key w =
    if env.holds w.events key
    then elim (get key w.cache) [ some v ↦ if truthy v then some v else none | none ↦ none ]
    else none

abbrev pub region_set : Bool → String → Json → Exec (Unit {0})
region_set false key v w = (ok tt, w)
region_set true key v w = (ok tt, record w { cache = put key v w.cache })

abbrev pub use_or_call : (should_cache : Bool) → String → Exec Json → Option Json → Exec Json
use_or_call should_cache key func (some v) = pure v
use_or_call should_cache key func none = do
  output ← func
  region_set should_cache key output
  pure output

-- `inner`, with the call of the function that it wraps
unfoldable pub dogpile_cache : Env → (should_cache : Bool) → (key : String) → Exec Json → Exec Json
dogpile_cache env should_cache key func w =
    use_or_call should_cache key func (if should_cache then region_get env key w else none) w
