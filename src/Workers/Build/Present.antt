-- ===== src/Workers/Build/Present.antt =====
-- The functions of iib/workers/tasks/build.py that compare an index image with the bundles to add.
pub mod Unique
pub mod Missing
use iib.Common.{
  ℕ, ◌+◌, ◌-◌, String, Bool, false, not, ◌&&◌, none, some, List, [], ◌∷◌, ◌++◌, ◌==◌, contains,
  keep, if◌then◌else◌,
}
use iib.Common.Dict.{get}
use iib.Common.Text.{◌⧺◌}
use iib.Common.Find.{decimal, contains_text, last_piece}
use iib.Exn.{Result, ok, err, iib_error}
use iib.Json.{Json, truthy}
use iib.Workers.Values.{subscript}
use iib.Workers.Exec.{Env, Exec, pure, lift, raise_if, emit, ◌>>=◌, ◌>>◌, killed}
use iib.Workers.Command.{run_cmd}
use iib.Workers.Api.{text_of}
use iib.Workers.Images.{get_image_label, loads, get_resolved_bundles}
use Prim.Native.Char.{code}
use iib.Common.{nat_eq}
use iib.Workers.Build.Image.{join_path, copy_files_from_image}
use iib.Workers.Build.Registry.{serve_index_registry}

-- `os.path.basename(path)`
unfoldable pub basename : String → String
basename path = last_piece "/" path

-- `_get_index_database`
unfoldable pub get_index_database : Env → (from_index base_dir : String) → Exec String
unfolding basename
get_index_database env from_index base_dir = do
  db_path ← get_image_label env from_index "operators.operatorframework.io.index.database.v1"
  raise_if (not (truthy db_path))
      (iib_error "Index image doesn't have the label specifying its database location.")
  copy_files_from_image env from_index (text_of env db_path) base_dir
  pure (join_path base_dir (basename (text_of env db_path)))

-- Whether the text begins with this character.
abbrev next_is : ℕ → String → Bool
next_is c String.[] = false
next_is c (String.◌∷◌ d s) = nat_eq (code d) c

-- `re.split(r'(?<=})\n(?={)', bundles)`: `piece` is what has been read of a piece, and `after_brace`
-- says that it ends with a closing brace.
abbrev split_from : (piece : String) → (after_brace : Bool) → String → List String
split_from piece after_brace String.[] = piece ∷ []
split_from piece after_brace (String.◌∷◌ c s) =
    let cuts = after_brace && nat_eq (code c) 10 && next_is b'{' s in
    let next_piece = if cuts then "" else piece ⧺ String.◌∷◌ c String.[] in
    let rest = split_from next_piece (nat_eq (code c) b'}') s in if cuts then piece ∷ rest else rest

unfoldable pub split_bundles : String → List String
split_bundles bundles = split_from "" false bundles

unfoldable pub load_all : Env → List String → Result (List Json)
load_all env [] = ok []
load_all env (text ∷ texts) = elim (loads env text) [
  | err e ↦ err e
  | ok v ↦ elim (load_all env texts) [ err e ↦ err e | ok vs ↦ ok (v ∷ vs) ]
]

-- `bundle['bundlePath']`, a text in opm's answers
unfoldable pub bundle_path : Env → Json → Result String
bundle_path env bundle = elim (subscript "bundlePath" bundle) [
  | err e ↦ err e
  | ok path ↦ ok (text_of env path)
]

-- The loop that keeps the first bundle of each path: the paths are those that it has kept.
unfoldable pub unique_from :
    Env
    → (bundles : List Json) → (paths : List String) → (present : List Json)
    → Result (List Json × List String)
unfolding bundle_path
unique_from env bundles paths [] = ok (bundles, paths)
unique_from env bundles paths (bundle ∷ present) = elim (bundle_path env bundle) [
  | err e ↦ err e
  | ok path ↦
      unique_from env (if contains path paths then bundles else bundles ++ bundle ∷ [])
        (if contains path paths then paths else paths ++ path ∷ []) present
]

abbrev pub parse_present : Env → String → Result (List Json × List String)
parse_present env output = elim (load_all env (split_bundles output)) [
  | err e ↦ err e
  | ok present ↦ unique_from env [] [] present
]

-- `_get_present_bundles`
unfoldable pub get_present_bundles :
    Env → (from_index base_dir : String) → Exec (List Json × List String)
unfolding split_bundles load_all unique_from
get_present_bundles env from_index base_dir = do
  db_path ← get_index_database env from_index base_dir
  port ← serve_index_registry env db_path
  bundles ←
      run_cmd env
        ("grpcurl" ∷ "-plaintext" ∷ ("localhost:" ⧺ decimal port) ∷ "api.Registry/ListBundles" ∷ [])
        none (some "Failed to get bundle data from index image")
  emit killed
  if bundles == "" then pure ([], []) else lift (parse_present env bundles)

-- The digests of the bundles that are given by digest.
unfoldable pub present_hashes : Env → (present : List Json) → Result (List String)
unfolding bundle_path
present_hashes env [] = ok []
present_hashes env (bundle ∷ present) = elim (bundle_path env bundle) [
  | err e ↦ err e
  | ok path ↦ elim (present_hashes env present) [
    | err e ↦ err e
    | ok hashes ↦
        ok (if contains_text "@sha256:" path then last_piece "@sha256:" path ∷ hashes else hashes)
  ]
]

abbrev pub is_missing : (hashes : List String) → (bundle : String) → Bool
is_missing hashes bundle = not (contains (last_piece "@sha256:" bundle) hashes)

-- `_get_missing_bundles`
unfoldable pub get_missing_bundles :
    Env → (present_bundles : List Json) → (bundles : List String) → Result (List String)
unfolding present_hashes
get_missing_bundles env present_bundles bundles = elim (present_hashes env present_bundles) [
  | err e ↦ err e
  | ok hashes ↦ ok (keep (is_missing hashes) bundles)
]

-- `get_bundles_from_deprecation_list` of iib/workers/tasks/utils.py
unfoldable pub get_bundles_from_deprecation_list :
    Env → (bundles deprecation_list : List String) → Exec (List String)
get_bundles_from_deprecation_list env bundles deprecation_list = do
  resolved ← get_resolved_bundles env deprecation_list
  pure (keep (λ bundle. contains bundle resolved) bundles)
