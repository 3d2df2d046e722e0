-- ===== src/Workers/Settings/Valid.antt =====
-- Which customizations the validation accepts.
use iib.Common.{String, Bool, false, [], ◌∷◌, all}
use iib.Common.Dict.{Dict}
use iib.Json.{Json, null, bool, int, float, str, arr, obj, fields, items}
use iib.Workers.Settings.{Outside, validate_org, validate_orgs, validate_iib_org_customizations}
use iib.Workers.Settings.Customization.{
  is_customization, Decides, Decides-then, Decides-true, Decides-false, all_customizations-Decides,
}

-- A dict from organizations to lists of customizations.
abbrev pub org_form : (customization : Json → Bool) → Json → Bool
org_form customization (arr vs) = all customization (items vs)
org_form customization _ = false

abbrev pub orgs_form : (customization : Json → Bool) → Json → Bool
orgs_form customization (obj fs) =
    all (λ (org, org_config). org_form customization org_config) (fields fs)
orgs_form customization _ = false

-- What the code accepts.
abbrev pub is_org_customizations : Json → Bool
is_org_customizations v = orgs_form is_customization v

org-Decides :
    (o : Outside) (org : String) (org_config : Json)
    → Decides (validate_org o org org_config) (org_form is_customization org_config)
org-Decides o org (arr vs) = all_customizations-Decides o org (items vs) (items vs)
org-Decides o org null = Decides-false _
org-Decides o org (bool b) = Decides-false _
org-Decides o org (int n) = Decides-false _
org-Decides o org (float z) = Decides-false _
org-Decides o org (str t) = Decides-false _
org-Decides o org (obj fs) = Decides-false _

orgs-Decides :
    (o : Outside) (d : Dict Json)
    → Decides
        (validate_orgs o d)
        (all (λ (org, org_config). org_form is_customization org_config) d)
unfolding validate_orgs
orgs-Decides o [] = Decides-true
orgs-Decides o ((org, org_config) ∷ d) =
    Decides-then _ _ _ _ (org-Decides o org org_config) (orgs-Decides o d)

pub validate_iib_org_customizations-Decides :
    (o : Outside) (v : Json)
    → Decides (validate_iib_org_customizations o v) (is_org_customizations v)
unfolding validate_iib_org_customizations
validate_iib_org_customizations-Decides o (obj fs) = orgs-Decides o (fields fs)
validate_iib_org_customizations-Decides o null = Decides-false _
validate_iib_org_customizations-Decides o (bool b) = Decides-false _
validate_iib_org_customizations-Decides o (int n) = Decides-false _
validate_iib_org_customizations-Decides o (float z) = Decides-false _
validate_iib_org_customizations-Decides o (str t) = Decides-false _
validate_iib_org_customizations-Decides o (arr vs) = Decides-false _
