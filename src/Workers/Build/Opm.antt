-- ===== src/Workers/Build/Opm.antt =====
-- The opm commands: `_opm_index_add` and `_opm_index_rm` of iib/workers/tasks/build.py, and
-- `deprecate_bundles` of iib/workers/tasks/utils.py.
use iib.Common.{
  String, Bool, true, false, Option, none, some, List, [], ◌∷◌, ◌++◌, ◌==◌, if◌then◌else◌,
}
use iib.Common.Find.{join}
use iib.Workers.Exec.{Env, Exec}
use iib.Workers.Retry.{retry}
use iib.Workers.Command.{run_cmd}
use iib.Workers.Docker.{set_registry_token}

-- `cmd.extend([flag, value])`, where there is a value
abbrev flag_if : (flag : String) → Option String → List String
flag_if flag none = []
flag_if flag (some value) = if value == "" then [] else flag ∷ value ∷ []

abbrev overwrite_flag : Bool → List String
overwrite_flag true = "--overwrite-latest" ∷ []
overwrite_flag false = []

-- `','.join(bundles) or '""'`
abbrev bundles_text : List String → String
bundles_text bundles = let joined = join "," bundles in if joined == "" then "\"\"" else joined

unfoldable pub opm_index_add_cmd :
    (bundles : List String)
    → (binary_image : String) → (from_index : Option String) → (overwrite_csv : Bool)
    → (container_tool : Option String) → List String
opm_index_add_cmd bundles binary_image from_index overwrite_csv container_tool =
    ("opm"
      ∷ "index"
      ∷ "add"
      ∷ "--enable-alpha"
      ∷ "--generate"
      ∷ "--bundles"
      ∷ bundles_text bundles
      ∷ "--binary-image"
      ∷ binary_image
      ∷ [])
    ++ (flag_if "--container-tool" container_tool
        ++ (flag_if "--from-index" from_index ++ overwrite_flag overwrite_csv))

-- `_opm_index_add`
unfoldable pub opm_index_add :
    Env
    → (base_dir : String) → (bundles : List String) → (binary_image : String)
    → (from_index overwrite_from_index_token : Option String) → (overwrite_csv : Bool)
    → (container_tool : Option String) → Exec String
unfolding opm_index_add_cmd
opm_index_add env base_dir bundles binary_image from_index token overwrite_csv container_tool =
    retry 2 (
      set_registry_token env token from_index (
        run_cmd env (opm_index_add_cmd bundles binary_image from_index overwrite_csv container_tool)
          (some base_dir) (some "Failed to add the bundles to the index image")))

-- `_opm_index_rm`
unfoldable pub opm_index_rm :
    Env
    → (base_dir : String) → (operators : List String) → (binary_image from_index : String)
    → (overwrite_from_index_token : Option String) → Exec String
opm_index_rm env base_dir operators binary_image from_index token = retry 2 (
    set_registry_token env token (some from_index) (
      run_cmd env
        ("opm"
          ∷ "index"
          ∷ "rm"
          ∷ "--generate"
          ∷ "--binary-image"
          ∷ binary_image
          ∷ "--from-index"
          ∷ from_index
          ∷ "--operators"
          ∷ join "," operators
          ∷ [])
        (some base_dir) (some "Failed to remove operators from the index image")))

unfoldable pub deprecate_bundles :
    Env
    → (bundles : List String) → (base_dir binary_image from_index : String)
    → (overwrite_target_index_token container_tool : Option String) → Exec String
deprecate_bundles env bundles base_dir binary_image from_index token container_tool =
    set_registry_token env token (some from_index) (
      run_cmd env
        (("opm"
            ∷ "index"
            ∷ "deprecatetruncate"
            ∷ "--generate"
            ∷ "--binary-image"
            ∷ binary_image
            ∷ "--from-index"
            ∷ from_index
            ∷ "--bundles"
            ∷ join "," bundles
            ∷ [])
          ++ flag_if "--container-tool" container_tool)
        (some base_dir) (some "Failed to deprecate the bundles"))
