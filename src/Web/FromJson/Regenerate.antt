-- ===== src/Web/FromJson/Regenerate.antt =====
-- `RequestRegenerateBundle.from_json` of iib/web/models.py.
use iib.Common.{ℕ, not, ◌&&◌, Option, some, [], ◌∷◌, if◌then◌else◌}
use iib.Common.Dict.{Dict, get}
use iib.Exn.{Result, ok, validation_error, not_string}
use iib.Json.{Json, truthy, is_str}
use iib.Web.Mappings.{regenerate_bundle}
use iib.Web.Params.{get_or_null, validate_request_params, validate_registry_auths}
use iib.Web.Session.{Env, Exec, lift, raise_if, ◌>>=◌, ◌>>◌, get_or_create_image}
use iib.Web.FromJson.Index.{text, blank, set_image, batch_or_new, insert_request}

-- `if registry_auths: validate_registry_auths(registry_auths)`
unfoldable pub check_registry_auths : Json → Result (Unit {0})
check_registry_auths auths = if truthy auths then validate_registry_auths auths else ok tt

unfoldable pub regenerate_from_json : Env → Dict Json → (batch : Option ℕ) → Exec ℕ
unfolding check_registry_auths
regenerate_from_json env params batch = do
  kwargs ← lift (
      validate_request_params params ("from_bundle_image" ∷ [])
        ("organization" ∷ "registry_auths" ∷ []))
  let organization = get_or_null "organization" kwargs
  raise_if (truthy organization && not (is_str organization))
      (validation_error (not_string "organization"))
  let from_bundle_image = get_or_null "from_bundle_image" kwargs
  raise_if (not (is_str from_bundle_image)) (validation_error (not_string "from_bundle_image"))
  lift (check_registry_auths (get_or_null "registry_auths" kwargs))
  image ← get_or_create_image (text from_bundle_image)
  id ← batch_or_new env batch
  insert_request env (record (blank regenerate_bundle id env.current_user) {
    images = set_image "from_bundle_image" (some image) [];
    organization = get "organization" kwargs;
  })
