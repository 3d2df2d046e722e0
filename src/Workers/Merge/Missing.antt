-- ===== src/Workers/Merge/Missing.antt =====
-- Which bundles of the target index image the source index image lacks: the loops of
-- `_add_bundles_missing_in_source` in iib/workers/tasks/build_merge_index_image.py.
pub mod Lacking
use iib.Common.{String, Bool, false, not, ◌||◌, List, [], ◌∷◌, contains, if◌then◌else◌}
use iib.Common.Text.{◌⧺◌}
use iib.Common.Find.{contains_text, last_piece}
use iib.Exn.{◌>>=◌, Exn, Result, ok, err, iib_error}
use iib.Json.{Json, json_eq}
use iib.Workers.Values.{subscript}
use iib.Workers.Exec.{Env}
use iib.Workers.Build.Present.{bundle_path}

-- The digests and the CSV names of the bundles of the source.
pub record Source : Type 0 where
  pub digests : List String
  pub csv_names : List Json

abbrev pub csv_name : Json → Result Json
csv_name bundle = subscript "csvName" bundle

abbrev not_by_digest : (path which : String) → Exn
not_by_digest path which =
    iib_error ("Bundle " ⧺ path ⧺ " in the " ⧺ which ⧺ " index image is not defined via digest")

-- The digest of a bundle that is given by digest.
unfoldable pub digest_of : Env → (which : String) → Json → Result String
digest_of env which bundle = elim (bundle_path env bundle) [
  | err e ↦ err e
  | ok path ↦
      if contains_text "@sha256:" path
      then ok (last_piece "@sha256:" path)
      else err (not_by_digest path which)
]

unfoldable pub read_source : Env → List Json → Result Source
unfolding digest_of
read_source env [] = ok (record { digests = []; csv_names = [] })
read_source env (bundle ∷ bundles) = digest_of env "source" bundle >>= λ digest.
    csv_name bundle >>= λ name. read_source env bundles >>= λ rest.
    ok (record { digests = digest ∷ rest.digests; csv_names = name ∷ rest.csv_names })

unfoldable pub read_target : Env → List Json → Result (List (String × Json))
unfolding digest_of
read_target env [] = ok []
read_target env (bundle ∷ bundles) = digest_of env "target" bundle >>= λ digest.
    read_target env bundles >>= λ rest. ok ((digest, bundle) ∷ rest)

abbrev pub has_json : Json → List Json → Bool
has_json v [] = false
has_json v (w ∷ ws) = json_eq w v || has_json v ws

-- The CSV name is looked up only where the digest is not in the source.
abbrev pub lacks : Source → String × Json → Result Bool
lacks source (digest, bundle) =
    if contains digest source.digests
    then ok false
    else (csv_name bundle >>= λ name. ok (not (has_json name source.csv_names)))

unfoldable pub pick_missing : Source → List (String × Json) → Result (List Json)
pick_missing source [] = ok []
pick_missing source (entry ∷ entries) = lacks source entry >>= λ missing.
    pick_missing source entries >>= λ rest. ok (if missing then entry.1 ∷ rest else rest)

unfoldable pub missing_in_source :
    Env → (source_index_bundles target_index_bundles : List Json) → Result (List Json)
unfolding read_source read_target pick_missing
missing_in_source env source_index_bundles target_index_bundles =
    read_source env source_index_bundles >>= λ source.
    read_target env target_index_bundles >>= λ target. pick_missing source target
