-- ===== src/Workers/Frames/Update.antt =====
-- The report of the index image that was built keeps what `Allows` allows.
use iib.Common.{ℕ, String, Bool, true, false, Option, some, List, [], ◌∷◌, refl, subst, dec_str}
use iib.Common.Dict.{Dict, get, keys}
use iib.Json.{Json, str, json_eq}
use iib.Web.Mappings.{RequestTypeMapping, add, rm, merge_index_image}
use iib.Web.Columns.{get_mutable_keys}
use iib.Web.Api.Patch.{check_keys}
use iib.Workers.Exec.{Env}
use iib.Workers.Exec.Keeps.{Frame, Keeps, Keeps-pure, Keeps-bind, keeping_rules}
use iib.Workers.Exec.Returns.{Returns, Returns-bind, Keeps-then}
use iib.Workers.Frames.{
  Allows, IsReport, is_progress, Keeps-set_registry_token, Keeps-update_request,
}
use iib.Workers.Frames.Images.{Keeps-get_resolved_image}
use iib.Workers.Images.{get_resolved_image}
use iib.Workers.Docker.{set_registry_token}
use iib.Workers.Frames.Build.{Keeps-overwrite_from_index}
use iib.Workers.Build.Update.{
  place_index_image, resolve_if, pull_spec_payload, update_index_image_pull_spec,
}

module _ {env : Env} {type : RequestTypeMapping} {request_id : ℕ} {F : Frame}
    (a : Allows env type request_id F) where
  Keeps-place_index_image :
      (output : String) (from_index : Option String) (overwrite : Bool)
      (token resolved : Option String)
      → Keeps F (place_index_image env request_id output from_index overwrite token resolved)
  unfolding place_index_image
  Keeps-place_index_image output from_index overwrite token resolved =
      search (keeping_rules, Keeps-overwrite_from_index a) depth 20

  Keeps-resolve_if :
      (add_or_rm : Bool) (token : Option String) (image : String)
      → Keeps F (resolve_if env add_or_rm token image)
  Keeps-resolve_if false token image = Keeps-pure []
  Keeps-resolve_if true token image =
      search (keeping_rules, Keeps-set_registry_token a, Keeps-get_resolved_image a) depth 20

  -- The request's type takes the keys of the payload, with the resolved image where it is resolved.
  pub Keeps-update_index_image_pull_spec :
      (output : String) (arches : List String) (from_index : Option String) (overwrite : Bool)
      (token prebuild : Option String) (add_or_rm : Bool)
      → ((image : String)
          → Returns
              (λ resolved. IsReport type (pull_spec_payload env arches image resolved))
              (resolve_if env add_or_rm token image))
      → Keeps F (
          update_index_image_pull_spec env output request_id arches from_index overwrite token
            prebuild add_or_rm)
  unfolding update_index_image_pull_spec
  Keeps-update_index_image_pull_spec output arches from_index overwrite token prebuild add_or_rm r =
      Keeps-bind (place_index_image env request_id output from_index overwrite token prebuild) _
        (Keeps-place_index_image _ _ _ _ _)
        (λ image.
          Keeps-then (resolve_if env add_or_rm token image) _
            (Keeps-resolve_if add_or_rm token image) (r image)
            (λ resolved fits.
              Keeps-update_request a _ (some "Failed setting the index image on the request") fits))

-- What is resolved goes into one key more.
pub resolve_if-Returns :
    (env : Env) (type : RequestTypeMapping) (arches : List String) (token : Option String)
    (image : String)
    → ((v : String)
        → IsReport type (pull_spec_payload env arches image (("index_image_resolved", str v) ∷ [])))
    → Returns
        (λ resolved. IsReport type (pull_spec_payload env arches image resolved))
        (resolve_if env true token image)
resolve_if-Returns env type arches token image k =
    Returns-bind (set_registry_token env token (some image) (get_resolved_image env image)) _
      (λ w v h. record {
        at = λ w' resolved e.
            let same : Path (Dict Json) (("index_image_resolved", str v) ∷ []) resolved = cc in
            subst (λ r. IsReport type (pull_spec_payload env arches image r)) same (k v);
      })

pub pull_spec-add :
    (env : Env) (arches : List String) (image v : String)
    → IsReport add (pull_spec_payload env arches image (("index_image_resolved", str v) ∷ []))
unfolding pull_spec_payload check_keys get_mutable_keys is_progress get keys dec_str json_eq
pull_spec-add env arches image v = record { has_mutable_keys = refl; leaves_open = refl }

pub pull_spec-rm :
    (env : Env) (arches : List String) (image v : String)
    → IsReport rm (pull_spec_payload env arches image (("index_image_resolved", str v) ∷ []))
unfolding pull_spec_payload check_keys get_mutable_keys is_progress get keys dec_str json_eq
pull_spec-rm env arches image v = record { has_mutable_keys = refl; leaves_open = refl }

pull_spec-merge :
    (env : Env) (arches : List String) (image : String)
    → IsReport merge_index_image (pull_spec_payload env arches image [])
unfolding pull_spec_payload check_keys get_mutable_keys is_progress get keys dec_str json_eq
pull_spec-merge env arches image = record { has_mutable_keys = refl; leaves_open = refl }

pub unresolved-Returns :
    (env : Env) (arches : List String) (token : Option String) (image : String)
    → Returns
        (λ resolved. IsReport merge_index_image (pull_spec_payload env arches image resolved))
        (resolve_if env false token image)
unresolved-Returns env arches token image = record {
  at = λ w resolved e.
      let same : Path (Dict Json) [] resolved = cc in
      subst (λ r. IsReport merge_index_image (pull_spec_payload env arches image r)) same
        (pull_spec-merge env arches image);
}
