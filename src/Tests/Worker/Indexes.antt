-- ===== src/Tests/Worker/Indexes.antt =====
-- The gate, the bundles of index images, their merge and the configuration.
use iib.Common.{
  ◌≤◌, ◌<◌, ◌+◌, String, true, false, not, ◌&&◌, some, List, [], ◌∷◌, ◌≡◌, refl, contains, any,
}
use iib.Exn.{ok, err}
use iib.Json.{null, Json, str, obj, field, end, arr, cons, nil}
use iib.Workers.Exec.{World}
use iib.Common.Dict.{Dict}
use iib.Common.Find.{last_piece}
use iib.Workers.Build.Registry.{serve_index_registry}
use iib.Workers.Docker.{set_registry_token}
use iib.Workers.Images.{get_resolved_image}
use iib.Workers.Gating.{gate_bundles}
use iib.Workers.Gating.Satisfied.{ArePassed, gate_bundles-ArePassed}
use iib.Workers.Build.Present.Missing.{has_digest, get_missing_bundles-contains}
use iib.Workers.Build.Registry.Port.{serve_index_registry-Within}
use iib.Workers.Build.Overwrite.{overwrite_from_index, image_changed, same_text?}
use iib.Workers.Build.Overwrite.Changed.{overwrite_from_index-changed}
use iib.Workers.Merge.Missing.Lacking.{IsPicked, missing_in_source-IsPicked}
use iib.Workers.Settings.{Outside, validate_iib_org_customizations}
use iib.Workers.Settings.Documented.{is_documented}
use iib.Workers.Settings.Valid.{validate_iib_org_customizations-Decides}
use iib.Tests.Worker.{env, world}
use iib.Tests.Worker.Parts.{run}

abbrev gate_config : Dict Json
gate_config =
    ("decision_context", str "cvp")
    ∷ ("product_version", str "cvp")
    ∷ ("subject_type", str "koji")
    ∷ []

abbrev gated : World
gated = (gate_bundles env ("quay.io/bundle@sha256:1" ∷ []) gate_config world).1

gated-is : gate_bundles env ("quay.io/bundle@sha256:1" ∷ []) gate_config world ≡ (ok tt, gated)
unfolding run
gated-is = refl

gate_bundles-ArePassed_example :
    ArePassed env gate_config ("quay.io/bundle@sha256:1" ∷ []) world gated
gate_bundles-ArePassed_example =
    gate_bundles-ArePassed env gate_config ("quay.io/bundle@sha256:1" ∷ []) world gated gated-is

abbrev bundle_of : (path name : String) → Json
bundle_of path name = obj (field "bundlePath" (str path) (field "csvName" (str name) end))

abbrev present : List Json
present = bundle_of "quay.io/a@sha256:1" "a.v1" ∷ bundle_of "quay.io/b:2" "b.v1" ∷ []

get_missing_bundles-contains_example : contains "quay.io/c@sha256:3" ("quay.io/c@sha256:3" ∷ []) ≡ (
    contains "quay.io/c@sha256:3" ("quay.io/x@sha256:1" ∷ "quay.io/c@sha256:3" ∷ [])
    && not (any (has_digest env (last_piece "@sha256:" "quay.io/c@sha256:3")) present))
unfolding run
get_missing_bundles-contains_example =
    get_missing_bundles-contains env present ("quay.io/x@sha256:1" ∷ "quay.io/c@sha256:3" ∷ [])
      ("quay.io/c@sha256:3" ∷ []) "quay.io/c@sha256:3" refl

serves : (serve_index_registry env "/tmp/iib-1/index.db" world).0 ≡ ok 50_051
unfolding run
serves = refl

serve_index_registry-Within_example :
    (env.config.iib_grpc_start_port ≤ 50_051)
    × (50_051 < env.config.iib_grpc_start_port + env.config.iib_grpc_max_port_tries)
serve_index_registry-Within_example =
    serve_index_registry-Within env "/tmp/iib-1/index.db" world 50_051 serves

abbrev resolved_world : World
resolved_world =
    (set_registry_token env (some "user:password") (some "quay.io/index:v4.6")
      (get_resolved_image env "quay.io/index:v4.6") world).1

resolves :
    set_registry_token env
      (some "user:password")
      (some "quay.io/index:v4.6")
      (get_resolved_image env "quay.io/index:v4.6")
      world
    ≡ (ok "quay.io/index@sha256:2", resolved_world)
unfolding run
resolves = refl

differs : same_text? "quay.io/index@sha256:2" (some "quay.io/index@sha256:9") ≡ false
unfolding run
differs = refl

overwrite_from_index-changed_example :
    overwrite_from_index env 1 "registry:8443/iib-build:1" "quay.io/index:v4.6"
      (some "quay.io/index@sha256:9")
      (some "user:password")
      world
    ≡ (err image_changed, resolved_world)
overwrite_from_index-changed_example =
    overwrite_from_index-changed env 1 "registry:8443/iib-build:1" "quay.io/index:v4.6"
      (some "quay.io/index@sha256:9") (some "user:password") world resolved_world
      "quay.io/index@sha256:2" resolves differs

missing_in_source-IsPicked_example :
    IsPicked env
      (bundle_of "quay.io/a@sha256:1" "a.v1" ∷ [])
      (bundle_of "quay.io/d@sha256:4" "a.v1" ∷ bundle_of "quay.io/c@sha256:3" "c.v1" ∷ [])
      (bundle_of "quay.io/c@sha256:3" "c.v1" ∷ [])
unfolding run
missing_in_source-IsPicked_example =
    missing_in_source-IsPicked env (bundle_of "quay.io/a@sha256:1" "a.v1" ∷ [])
      (bundle_of "quay.io/d@sha256:4" "a.v1" ∷ bundle_of "quay.io/c@sha256:3" "c.v1" ∷ [])
      (bundle_of "quay.io/c@sha256:3" "c.v1" ∷ []) refl

abbrev outside : Outside
outside = record {
  text = λ v. "?";
  keys_text = λ ks. "{}";
  is_dir = λ v. true;
  is_writable = λ v. true;
}

abbrev customizations : Json
customizations = obj (
    field "company"
      (arr (
        cons (obj (field "type" (str "package_name_suffix") (field "suffix" (str "-cmp") end)))
          nil))
      end)

abbrev no_replacements : Json
no_replacements = obj (
    field "company"
      (arr (
        cons (obj (field "type" (str "registry_replacements") (field "replacements" null end)))
          nil))
      end)

-- A value that the README does not allow is accepted.
null_accepted :
    (is_documented no_replacements ≡ false)
    × (validate_iib_org_customizations outside no_replacements ≡ ok tt)
unfolding run validate_iib_org_customizations
null_accepted =
    (refl, (validate_iib_org_customizations-Decides outside no_replacements).accepts refl)
