-- ===== src/Workers/Frames/Reports.antt =====
-- The keys of the reports of a build, as `check_keys` of iib/web/api_v1.py takes them for the
-- request's type.
use iib.Common.{
  String, Option, none, some, List, [], ◌∷◌, ◌≡◌, ◌⊎◌, inl, inr, refl, ◌==◌, Bool-cases, dec_str,
}
use iib.Common.Dict.{Dict, get, keys}
use iib.Json.{Json, str, json_eq}
use iib.Web.Mappings.{add, rm, merge_index_image}
use iib.Web.Columns.{get_mutable_keys}
use iib.Web.Api.Patch.{check_keys}
use iib.Workers.Frames.{IsReport, is_progress}
use iib.Workers.Prepare.{Prebuild}
use iib.Workers.Build.Update.{build_state_payload, field_if, mapping_if}

optional :
    (key : String) (v : Option String)
    → (field_if key v ≡ []) ⊎ ((s : String) × (field_if key v ≡ (key, str s) ∷ []))
optional key none = inl refl
optional key (some s) = elim (Bool-cases (s == "")) [
  | inl h ↦ rw h (inl refl)
  | inr h ↦ rw h (inr (s, refl))
]

mapped :
    (mapping : Dict (List String))
    → (mapping_if mapping ≡ []) ⊎ ((v : Json) × (mapping_if mapping ≡ ("bundle_mapping", v) ∷ []))
mapped [] = inl refl
mapped (entry ∷ mapping) = inr (_, refl)

-- A build of an add request names neither a source nor a target index.
pub build_state-add :
    (info : Prebuild)
    → info.source_from_index_resolved ≡ none
    → info.target_index_resolved ≡ none
    → IsReport add (build_state_payload info)
unfolding build_state_payload check_keys get_mutable_keys is_progress get keys dec_str json_eq
build_state-add info s t = elim (mapped info.bundle_mapping) [
  | inl m ↦ elim (optional "from_index_resolved" info.from_index_resolved) [
    | inl f ↦ rw (s, t, m, f) (record { has_mutable_keys = refl; leaves_open = refl })
    | inr (v, f) ↦ rw (s, t, m, f) (record { has_mutable_keys = refl; leaves_open = refl })
  ]
  | inr (j, m) ↦ elim (optional "from_index_resolved" info.from_index_resolved) [
    | inl f ↦ rw (s, t, m, f) (record { has_mutable_keys = refl; leaves_open = refl })
    | inr (v, f) ↦ rw (s, t, m, f) (record { has_mutable_keys = refl; leaves_open = refl })
  ]
]

-- One of an rm request has no bundles to map either.
pub build_state-rm :
    (info : Prebuild)
    → info.source_from_index_resolved ≡ none
    → info.target_index_resolved ≡ none
    → info.bundle_mapping ≡ []
    → IsReport rm (build_state_payload info)
unfolding build_state_payload check_keys get_mutable_keys is_progress get keys dec_str json_eq
build_state-rm info s t m = elim (optional "from_index_resolved" info.from_index_resolved) [
  | inl f ↦ rw (s, t, m, f) (record { has_mutable_keys = refl; leaves_open = refl })
  | inr (v, f) ↦ rw (s, t, m, f) (record { has_mutable_keys = refl; leaves_open = refl })
]

pub build_state-merge :
    (info : Prebuild)
    → info.from_index_resolved ≡ none
    → info.bundle_mapping ≡ []
    → IsReport merge_index_image (build_state_payload info)
unfolding build_state_payload check_keys get_mutable_keys is_progress get keys dec_str json_eq
build_state-merge info f m =
    elim (optional "source_from_index_resolved" info.source_from_index_resolved) [
      | inl s ↦ elim (optional "target_index_resolved" info.target_index_resolved) [
        | inl t ↦ rw (s, t, m, f) (record { has_mutable_keys = refl; leaves_open = refl })
        | inr (v, t) ↦ rw (s, t, m, f) (record { has_mutable_keys = refl; leaves_open = refl })
      ]
      | inr (u, s) ↦ elim (optional "target_index_resolved" info.target_index_resolved) [
        | inl t ↦ rw (s, t, m, f) (record { has_mutable_keys = refl; leaves_open = refl })
        | inr (v, t) ↦ rw (s, t, m, f) (record { has_mutable_keys = refl; leaves_open = refl })
      ]
    ]
