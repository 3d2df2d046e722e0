-- ===== src/Workers/Regenerate/Selected.antt =====
-- Which files of a bundle are pinned, and which bundles are refused.
use iib.Common.{
  String, Bool, true, false, not, ◌&&◌, List, [], ◌∷◌, ◌++◌, ◌≡◌, refl, ap, ◌∙◌, map, keep, All,
  inl, inr, Bool-cases,
}
use iib.Exn.{Exn, Result, ok, err, iib_error}
use iib.Workers.Exec.{Env, OperatorCsv}
use iib.Workers.Regenerate.Contents.{
  BundleMetadata, related_images_message, add_csv, add_csvs, get_bundle_metadata,
}

module _ (env : Env) (pinned_by_iib : Bool) where
  -- The file lists related images itself, and the bundle has not been pinned by IIB before.
  abbrev pub lists_images : OperatorCsv → Bool
  lists_images csv = not pinned_by_iib && env.manifests.has_related_images csv.contents

  abbrev pub is_refused : OperatorCsv → Bool
  is_refused csv = lists_images csv && env.manifests.has_related_image_envs csv.contents

  -- The first file that is refused, after these.
  pub record IsFirstRefused (files : List OperatorCsv) (e : Exn) : Type 0 where
    pub before : List OperatorCsv
    pub csv : OperatorCsv
    pub after : List OperatorCsv
    pub files_are : files ≡ before ++ csv ∷ after
    pub taken : All (λ c. is_refused c ≡ false) before
    pub refused : is_refused csv ≡ true
    pub message : e ≡ iib_error (related_images_message csv)

  -- No file is refused, and those that do not list related images are to be changed.
  pub record IsSelected (files : List OperatorCsv) (before : List String) (m : BundleMetadata)
      : Type 0 where
    pub taken : All (λ c. is_refused c ≡ false) files
    pub paths :
        m.operator_csvs
        ≡ before ++ map (λ (c : OperatorCsv). c.path) (keep (λ c. not (lists_images c)) files)

  abbrev pub IsSelection :
      (files : List OperatorCsv) (before : List String) → Result BundleMetadata → Type 0
  IsSelection files before (ok m) = IsSelected files before m
  IsSelection files before (err e) = IsFirstRefused files e

  append_one : (xs ys : List String) (x : String) → (xs ++ x ∷ []) ++ ys ≡ xs ++ x ∷ ys
  append_one [] ys x = refl
  append_one (z ∷ xs) ys x = ap (λ l. z ∷ l) (append_one xs ys x)

  and_nothing : (xs : List String) → xs ≡ xs ++ []
  and_nothing [] = refl
  and_nothing (x ∷ xs) = ap (λ l. x ∷ l) (and_nothing xs)

  not_refused : (l e : Bool) → l ≡ false → (l && e) ≡ false
  not_refused true e h = cc
  not_refused false e h = refl

  -- A first file that is to be changed.
  pass-changed :
      (csv : OperatorCsv) (files : List OperatorCsv) (before : List String)
      (r : Result BundleMetadata)
      → lists_images csv ≡ false
      → IsSelection files (before ++ csv.path ∷ []) r
      → IsSelection (csv ∷ files) before r
  pass-changed csv files before (ok m) l s = record {
    taken = (not_refused (lists_images csv) _ l, s.taken);
    paths = rw l (s.paths ∙ append_one before _ csv.path);
  }
  pass-changed csv files before (err e) l s = record {
    before = csv ∷ s.before;
    csv = s.csv;
    after = s.after;
    files_are = ap (λ fs. csv ∷ fs) s.files_are;
    taken = (not_refused (lists_images csv) _ l, s.taken);
    refused = s.refused;
    message = s.message;
  }

  -- A first file that is left as it is.
  pass-left :
      (csv : OperatorCsv) (files : List OperatorCsv) (before : List String)
      (r : Result BundleMetadata)
      → lists_images csv ≡ true
      → env.manifests.has_related_image_envs csv.contents ≡ false
      → IsSelection files before r
      → IsSelection (csv ∷ files) before r
  pass-left csv files before (ok m) l n s = record {
    taken = (rw (l, n) refl, s.taken);
    paths = rw l s.paths;
  }
  pass-left csv files before (err e) l n s = record {
    before = csv ∷ s.before;
    csv = s.csv;
    after = s.after;
    files_are = ap (λ fs. csv ∷ fs) s.files_are;
    taken = (rw (l, n) refl, s.taken);
    refused = s.refused;
    message = s.message;
  }

  add_csvs-IsSelection :
      (files : List OperatorCsv) (m : BundleMetadata)
      → IsSelection files m.operator_csvs (add_csvs env pinned_by_iib m files)
  unfolding add_csvs add_csv
  add_csvs-IsSelection [] m = record { taken = tt; paths = and_nothing m.operator_csvs }
  add_csvs-IsSelection (csv ∷ files) m = elim (Bool-cases (lists_images csv)) [
    | inr l ↦ rw l (pass-changed csv files m.operator_csvs _ l (add_csvs-IsSelection files _))
    | inl l ↦ elim (Bool-cases (env.manifests.has_related_image_envs csv.contents)) [
      | inr n ↦ rw (l, n) (pass-left csv files m.operator_csvs _ l n (add_csvs-IsSelection files m))
      | inl n ↦
          rw (l, n)
            (record {
              before = [];
              csv = csv;
              after = files;
              files_are = refl;
              taken = tt;
              refused = rw (l, n) refl;
              message = refl;
            })
    ]
  ]

  -- `_get_bundle_metadata` refuses a bundle for the first of its files that both lists related
  -- images and sets them in the environment of a container, unless the bundle has been pinned by
  -- IIB. Otherwise it returns the files that list no related images, in their order, or all of them
  -- where the bundle has been pinned by IIB.
  pub get_bundle_metadata-IsSelection :
      (files : List OperatorCsv)
      → IsSelection files [] (get_bundle_metadata env files pinned_by_iib)
  unfolding get_bundle_metadata
  get_bundle_metadata-IsSelection files = add_csvs-IsSelection files _
