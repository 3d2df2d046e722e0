-- ===== src/Web/Api/Grows/Patch.antt =====
-- `patch_request` of iib/web/api_v1.py lets histories only grow.
use iib.Common.{
  ℕ, String, ◌≡◌, refl, Option, Option-cases, none, some, List, [], ◌∷◌, arith, inl, inr,
}
use iib.Common.Dict.{Dict, get}
use iib.Json.{Json}
use iib.Exn.{ok}
use iib.Web.Tables.{Request, RequestState}
use iib.Web.Request.{add_architecture}
use iib.Web.Params.{strings}
use iib.Web.Messaging.{find_request}
use iib.Web.Session.{
  Env, World, modify, get_or_create_image, get_or_create_operator, get_or_create_architecture,
}
use iib.Web.Api.Patch.{
  get_or_404, apply_state, patch_state, update_request, patch_omps, patch_image, patch_images,
  patch_arches, patch_bundles, patch_mapping, patch_scope, set_operator, set_image_column,
  patch_request,
}
use iib.Web.FromJson.Index.{text}
use iib.Web.Api.Grows.{
  Extends-same, Grown, IsGrowing, IsGrowing-if, IsGrowing-pure, IsGrowing-raise, IsGrowing-bind,
  IsGrowing-same, IsGrowing-get_or_create_image, IsGrowing-get_or_create_operator,
  IsGrowing-get_or_create_architecture, growing_rules,
}
use iib.Web.Api.Grows.Calls.{
  IsGrowing-tables, IsGrowing-add_state_to, IsGrowing-send_message_for_state_change,
  Grown-replace_request,
}

-- A change of a row that keeps its key and its states.
record KeepsStates (f : Request → Request) : Type 0 where
  pub id : (r : Request) → (f r).id ≡ r.id
  pub states : (r : Request) → (f r).states ≡ r.states

committed-update_request :
    (id : ℕ) (f : Request → Request) (w : World) → (update_request id f w).1.committed ≡ w.committed
unfolding update_request
committed-update_request id f w = ground arith

tables-update_request :
    (id : ℕ) (f : Request → Request) (w : World) (a : Unit {0})
    → KeepsStates f
    → (update_request id f w).0 ≡ ok a
    → Grown w.tables.requests (update_request id f w).1.tables.requests
unfolding update_request
tables-update_request id f w a k h = elim (Option-cases (find_request id w.tables.requests)) [
  | inl missing ↦ cc (rw (missing, update_request) at h)
  | inr (r, found) ↦
      rw (found, update_request)
        (Grown-replace_request id r (f r) w.tables.requests found (k.id r)
          (Extends-same r (f r) (k.states r)))
]

IsGrowing-update_request :
    (id : ℕ) (f : Request → Request) → KeepsStates f → IsGrowing (update_request id f)
IsGrowing-update_request id f k =
    IsGrowing-tables _ (λ w a h. tables-update_request id f w a k h) (committed-update_request id f)

KeepsStates-set_image_column : (key spec : String) → KeepsStates (set_image_column key spec)
unfolding set_image_column
KeepsStates-set_image_column key spec = record {
  id = λ r. ground arith;
  states = λ r. ground arith;
}

KeepsStates-add_architecture : (name : String) → KeepsStates (add_architecture name)
unfolding add_architecture
KeepsStates-add_architecture name = record { id = λ r. ground arith; states = λ r. ground arith }

IsGrowing-get_or_404 : (id : ℕ) → IsGrowing (get_or_404 id)
unfolding get_or_404
IsGrowing-get_or_404 id = IsGrowing-same _ (λ w. ground arith) (λ w. ground arith)

IsGrowing-patch_omps : (r : Request) (payload : Dict Json) → IsGrowing (patch_omps r payload)
unfolding patch_omps
IsGrowing-patch_omps r payload = IsGrowing-if _ _ _ (IsGrowing-pure tt) (
    IsGrowing-if _ _ _ (IsGrowing-raise _)
      (IsGrowing-update_request r.id _ (record { id = λ r. refl; states = λ r. refl })))

IsGrowing-patch_image : (id : ℕ) (key : String) (v : Option Json) → IsGrowing (patch_image id key v)
unfolding patch_image
IsGrowing-patch_image id key none = IsGrowing-pure tt
IsGrowing-patch_image id key (some v) =
    IsGrowing-bind (get_or_create_image (text v)) _ (IsGrowing-get_or_create_image _)
      (λ spec. IsGrowing-update_request id _ (KeepsStates-set_image_column key spec))

IsGrowing-patch_images :
    (id : ℕ) (payload : Dict Json) (image_keys : List String)
    → IsGrowing (patch_images id payload image_keys)
unfolding patch_images
IsGrowing-patch_images id payload [] = IsGrowing-pure tt
IsGrowing-patch_images id payload (key ∷ image_keys) =
    IsGrowing-bind (patch_image id key _) _ (IsGrowing-patch_image id key (get key payload))
      (λ _. IsGrowing-patch_images id payload image_keys)

IsGrowing-patch_arches : (id : ℕ) (arches : List String) → IsGrowing (patch_arches id arches)
unfolding patch_arches
IsGrowing-patch_arches id [] = IsGrowing-pure tt
IsGrowing-patch_arches id (arch ∷ arches) =
    IsGrowing-bind (get_or_create_architecture arch) _ (IsGrowing-get_or_create_architecture arch)
      (λ name.
        IsGrowing-bind (update_request id (add_architecture name)) _
          (IsGrowing-update_request id _ (KeepsStates-add_architecture name))
          (λ _. IsGrowing-patch_arches id arches))

IsGrowing-patch_bundles :
    (operator : String) (bundles : List String) → IsGrowing (patch_bundles operator bundles)
unfolding patch_bundles
IsGrowing-patch_bundles operator [] = IsGrowing-pure tt
IsGrowing-patch_bundles operator (bundle ∷ bundles) =
    IsGrowing-bind (get_or_create_image bundle) _ (IsGrowing-get_or_create_image bundle) (λ spec.
      IsGrowing-bind
        (modify (λ w. record w {
          tables = record w.tables { images = set_operator spec operator w.tables.images };
        }))
        _ (IsGrowing-same _ (λ w. refl) (λ w. refl))
        (λ _. IsGrowing-patch_bundles operator bundles))

IsGrowing-patch_mapping : (mapping : Dict Json) → IsGrowing (patch_mapping mapping)
unfolding patch_mapping
IsGrowing-patch_mapping [] = IsGrowing-pure tt
IsGrowing-patch_mapping ((operator, bundles) ∷ mapping) =
    IsGrowing-bind (get_or_create_operator operator) _ (IsGrowing-get_or_create_operator operator)
      (λ name.
        IsGrowing-bind (patch_bundles name (strings bundles)) _
          (IsGrowing-patch_bundles name (strings bundles)) (λ _. IsGrowing-patch_mapping mapping))

IsGrowing-patch_scope : (id : ℕ) (v : Option Json) → IsGrowing (patch_scope id v)
unfolding patch_scope
IsGrowing-patch_scope id none = IsGrowing-pure tt
IsGrowing-patch_scope id (some v) =
    IsGrowing-update_request id _ (record { id = λ r. refl; states = λ r. refl })

module _ (env : Env) where
  IsGrowing-apply_state :
      (id : ℕ) (s : Option RequestState) (state reason : Json)
      → IsGrowing (apply_state env id s state reason)
  unfolding apply_state
  IsGrowing-apply_state id none state reason = search growing_rules
  IsGrowing-apply_state id (some s) state reason = search (growing_rules, IsGrowing-add_state_to)

  IsGrowing-patch_state :
      (r : Request) (payload : Dict Json) → IsGrowing (patch_state env r payload)
  unfolding patch_state
  IsGrowing-patch_state r payload = search (growing_rules, IsGrowing-apply_state)

  pub IsGrowing-patch_request : (id : ℕ) (json : Json) → IsGrowing (patch_request env id json)
  unfolding patch_request
  IsGrowing-patch_request id json =
      search
        (
          growing_rules, IsGrowing-get_or_404, IsGrowing-patch_state, IsGrowing-patch_omps,
          IsGrowing-patch_images, IsGrowing-patch_arches, IsGrowing-patch_mapping,
          IsGrowing-patch_scope, IsGrowing-send_message_for_state_change,
        )
        depth 30
