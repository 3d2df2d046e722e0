-- ===== src/Web/Api/Patch/Quiet.antt =====
-- Up to its commit, a PATCH changes nothing outside the session.
use iib.Common.{ℕ, String, refl, Option, none, some, List, [], ◌∷◌, arith}
use iib.Common.Dict.{Dict, get}
use iib.Json.{Json}
use iib.Web.Tables.{Request, RequestState, Tables}
use iib.Web.Session.{
  Env, modify, get_or_create_image, get_or_create_operator, get_or_create_architecture,
}
use iib.Web.Session.Quiet.{
  SameOutside, SameOutside-refl, SameOutside-trans, IsQuiet, quiet_rules, IsQuiet-bind,
  IsQuiet-get_or_create_image, IsQuiet-get_or_create_operator, IsQuiet-get_or_create_architecture,
}
use iib.Web.Params.{strings}
use iib.Web.Request.{add_architecture}
use iib.Web.Api.Broker.{add_state_to}
use iib.Web.Api.Patch.{
  get_or_404, apply_state, patch_state, update_request, patch_omps, patch_image, patch_images,
  patch_arches, patch_bundles, patch_mapping, patch_scope, set_operator,
}

module _ (env : Env) where
  IsQuiet-add_state_to :
      (id : ℕ) (state reason : String) → IsQuiet (add_state_to env id state reason)
  unfolding add_state_to
  IsQuiet-add_state_to id state reason = record { at = λ w. ground arith }

  IsQuiet-apply_state :
      (id : ℕ) (s : Option RequestState) (state reason : Json)
      → IsQuiet (apply_state env id s state reason)
  unfolding apply_state
  IsQuiet-apply_state id none state reason = search quiet_rules
  IsQuiet-apply_state id (some s) state reason = search (quiet_rules, IsQuiet-add_state_to)

  pub IsQuiet-patch_state :
      (r : Request) (payload : Dict Json) → IsQuiet (patch_state env r payload)
  unfolding patch_state
  IsQuiet-patch_state r payload = search (quiet_rules, IsQuiet-apply_state)

pub IsQuiet-get_or_404 : (id : ℕ) → IsQuiet (get_or_404 id)
unfolding get_or_404
IsQuiet-get_or_404 id = record { at = λ w. ground arith }

IsQuiet-update_request : (id : ℕ) (f : Request → Request) → IsQuiet (update_request id f)
unfolding update_request
IsQuiet-update_request id f = record { at = λ w. ground arith }

pub IsQuiet-patch_omps : (r : Request) (payload : Dict Json) → IsQuiet (patch_omps r payload)
unfolding patch_omps
IsQuiet-patch_omps r payload = search (quiet_rules, IsQuiet-update_request)

IsQuiet-patch_image : (id : ℕ) (key : String) (v : Option Json) → IsQuiet (patch_image id key v)
unfolding patch_image
IsQuiet-patch_image id key none = search quiet_rules
IsQuiet-patch_image id key (some v) = search (quiet_rules, IsQuiet-update_request)

pub IsQuiet-patch_images :
    (id : ℕ) (payload : Dict Json) (image_keys : List String)
    → IsQuiet (patch_images id payload image_keys)
unfolding patch_images
IsQuiet-patch_images id payload [] = search quiet_rules
IsQuiet-patch_images id payload (key ∷ image_keys) =
    IsQuiet-bind (patch_image id key (get key payload)) _
      (IsQuiet-patch_image id key (get key payload))
      (λ _. IsQuiet-patch_images id payload image_keys)

IsQuiet-modify_tables :
    (f : Tables → Tables) → IsQuiet (modify (λ w. record w { tables = f w.tables }))
IsQuiet-modify_tables f = record {
  at = λ w. record { committed = refl; sent = refl; scheduled = refl };
}

pub IsQuiet-patch_arches : (id : ℕ) (arches : List String) → IsQuiet (patch_arches id arches)
unfolding patch_arches
IsQuiet-patch_arches id [] = search quiet_rules
IsQuiet-patch_arches id (arch ∷ arches) =
    IsQuiet-bind (get_or_create_architecture arch) _ (IsQuiet-get_or_create_architecture arch)
      (λ name.
        IsQuiet-bind (update_request id (add_architecture name)) _ (IsQuiet-update_request id _)
          (λ _. IsQuiet-patch_arches id arches))

IsQuiet-patch_bundles :
    (operator : String) (bundles : List String) → IsQuiet (patch_bundles operator bundles)
unfolding patch_bundles
IsQuiet-patch_bundles operator [] = search quiet_rules
IsQuiet-patch_bundles operator (bundle ∷ bundles) =
    IsQuiet-bind (get_or_create_image bundle) _ (IsQuiet-get_or_create_image bundle) (λ spec.
      IsQuiet-bind
        (modify (λ w. record w {
          tables = record w.tables { images = set_operator spec operator w.tables.images };
        }))
        _ (IsQuiet-modify_tables (λ t. record t { images = set_operator spec operator t.images }))
        (λ _. IsQuiet-patch_bundles operator bundles))

pub IsQuiet-patch_mapping : (mapping : Dict Json) → IsQuiet (patch_mapping mapping)
unfolding patch_mapping
IsQuiet-patch_mapping [] = search quiet_rules
IsQuiet-patch_mapping ((operator, bundles) ∷ mapping) =
    IsQuiet-bind (get_or_create_operator operator) _ (IsQuiet-get_or_create_operator operator)
      (λ name.
        IsQuiet-bind (patch_bundles name (strings bundles)) _
          (IsQuiet-patch_bundles name (strings bundles)) (λ _. IsQuiet-patch_mapping mapping))

pub IsQuiet-patch_scope : (id : ℕ) (v : Option Json) → IsQuiet (patch_scope id v)
unfolding patch_scope
IsQuiet-patch_scope id none = search quiet_rules
IsQuiet-patch_scope id (some v) = search (quiet_rules, IsQuiet-update_request)

pub ruleset patch_rules = (
  quiet_rules, IsQuiet-patch_state, IsQuiet-get_or_404, IsQuiet-patch_omps, IsQuiet-patch_images,
  IsQuiet-patch_arches, IsQuiet-patch_mapping, IsQuiet-patch_scope,
)
