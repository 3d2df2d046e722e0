-- ===== src/Workers/Build/Present/Missing.antt =====
-- Which bundles `_get_missing_bundles` keeps.
use iib.Common.{
  String, Bool, false, not, ◌&&◌, ◌||◌, List, [], ◌∷◌, ◌≡◌, refl, arith, contains, any, keep, ◌==◌,
  if◌then◌else◌, ==-eq, Bool-cases, inl, inr,
}
use iib.Common.Find.{contains_text, last_piece}
use iib.Exn.{Result, ok, err}
use iib.Json.{Json}
use iib.Workers.Exec.{Env}
use iib.Workers.Build.Present.{bundle_path, present_hashes, is_missing, get_missing_bundles}

-- Whether the bundle is given by this digest.
abbrev pub has_digest : Env → (digest : String) → Json → Bool
has_digest env digest bundle = elim (bundle_path env bundle) [
  | err e ↦ false
  | ok path ↦ contains_text "@sha256:" path && last_piece "@sha256:" path == digest
]

contains-keep :
    (s : String) (p : String → Bool) (xs : List String)
    → contains s (keep p xs) ≡ (contains s xs && p s)
contains-keep s p [] = refl
contains-keep s p (x ∷ xs) = elim (Bool-cases (x == s)) [
  | inl h ↦ let same = ==-eq x s h in ground (arith, contains-keep s p xs, same)
  | inr h ↦ ground (arith, contains-keep s p xs)
]

present_hashes-contains :
    (env : Env) (digest : String) (present : List Json) (hashes : List String)
    → present_hashes env present ≡ ok hashes
    → contains digest hashes ≡ any (has_digest env digest) present
unfolding present_hashes
present_hashes-contains env digest [] hashes h =
    let same : Path (List String) [] hashes = cc in rw (← same) refl
present_hashes-contains env digest (bundle ∷ present) hashes h =
    split (bundle_path env bundle) (present_hashes env present)
      (λ rest. present_hashes-contains env digest present rest) h
  where
    split :
        (r : Result String) (s : Result (List String))
        → ((rest : List String)
            → s ≡ ok rest
            → contains digest rest ≡ any (has_digest env digest) present)
        → elim r [
          | err e ↦ err e
          | ok path ↦ elim s [
            | err e ↦ err e
            | ok hs ↦
                ok (if contains_text "@sha256:" path then last_piece "@sha256:" path ∷ hs else hs)
          ]
        ]
          ≡ ok hashes
        → contains digest hashes ≡ (
            elim r [
              | err e ↦ false
              | ok path ↦ contains_text "@sha256:" path && last_piece "@sha256:" path == digest
            ]
            || any (has_digest env digest) present)
    split (err e) s k h = cc
    split (ok path) (err e) k h = cc
    split (ok path) (ok hs) k h =
        let same : (if contains_text "@sha256:" path then last_piece "@sha256:" path ∷ hs else hs)
            ≡ hashes =
          cc in
        rw (← same) ground (arith, k hs refl)

-- A bundle is taken for missing if it is one of those to be added, and no bundle of the index image
-- that is given by digest has the digest at its end.
pub get_missing_bundles-contains :
    (env : Env) (present : List Json) (bundles missing : List String) (bundle : String)
    → get_missing_bundles env present bundles ≡ ok missing
    → contains bundle missing ≡ (
        contains bundle bundles
        && not (any (has_digest env (last_piece "@sha256:" bundle)) present))
unfolding get_missing_bundles
get_missing_bundles-contains env present bundles missing bundle h =
    split (present_hashes env present) (λ hashes. present_hashes-contains env _ present hashes) h
  where
    split :
        (r : Result (List String))
        → ((hashes : List String)
            → r ≡ ok hashes
            → contains (last_piece "@sha256:" bundle) hashes
              ≡ any (has_digest env (last_piece "@sha256:" bundle)) present)
        → elim r [ err e ↦ err e | ok hashes ↦ ok (keep (is_missing hashes) bundles) ] ≡ ok missing
        → contains bundle missing ≡ (
            contains bundle bundles
            && not (any (has_digest env (last_piece "@sha256:" bundle)) present))
    split (err e) k h = cc
    split (ok hashes) k h =
        let same : keep (is_missing hashes) bundles ≡ missing = cc in
        rw (← same, ← (k hashes refl)) (contains-keep bundle (is_missing hashes) bundles)
