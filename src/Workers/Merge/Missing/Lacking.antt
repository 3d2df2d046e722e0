-- ===== src/Workers/Merge/Missing/Lacking.antt =====
-- Which bundles of the target `_add_bundles_missing_in_source` of
-- iib/workers/tasks/build_merge_index_image.py takes for missing.
use iib.Common.{
  String, Bool, true, false, not, ◌||◌, List, [], ◌∷◌, ◌≡◌, ◌⊎◌, inl, inr, refl, ap, sym, subst,
  contains, any, if◌then◌else◌, ◌==◌,
}
use iib.Exn.{Result, ok, err, ◌>>=◌, >>=-eq-ok}
use iib.Json.{Json, json_eq}
use iib.Workers.Exec.{Env}
use iib.Workers.Merge.Missing.{
  Source, csv_name, digest_of, lacks, has_json, pick_missing, read_source, read_target,
  missing_in_source,
}

-- The bundle of the source has this digest.
abbrev pub has_digest : Env → (digest : String) → Json → Bool
has_digest env digest bundle = elim (digest_of env "source" bundle) [
  | ok d ↦ d == digest
  | err e ↦ false
]

-- The bundle of the source has this CSV name.
abbrev pub has_name : (name : Json) → Json → Bool
has_name name bundle = elim (csv_name bundle) [ ok n ↦ json_eq n name | err e ↦ false ]

module _ (env : Env) (source_bundles : List Json) where
  -- No bundle of the source has the digest of this one, and none has its CSV name.
  pub record IsLacking (bundle : Json) : Type 0 where
    pub digest : String
    pub name : Json
    pub digest_is : digest_of env "target" bundle ≡ ok digest
    pub name_is : csv_name bundle ≡ ok name
    pub new_digest : any (has_digest env digest) source_bundles ≡ false
    pub new_name : any (has_name name) source_bundles ≡ false

  -- A bundle of the source has the digest of this one.
  pub record HasDigest (bundle : Json) : Type 0 where
    pub digest : String
    pub digest_is : digest_of env "target" bundle ≡ ok digest
    pub old_digest : any (has_digest env digest) source_bundles ≡ true

  -- A bundle of the source has the CSV name of this one.
  pub record HasName (bundle : Json) : Type 0 where
    pub name : Json
    pub name_is : csv_name bundle ≡ ok name
    pub old_name : any (has_name name) source_bundles ≡ true

  -- The bundles of the target that are picked, in their order, and those that are not.
  pub data IsPicked : (target_bundles missing : List Json) → Type 0 where
    none_left : IsPicked [] []
    picked :
        (bundle : Json) (bundles missing : List Json)
        → IsLacking bundle
        → IsPicked bundles missing
        → IsPicked (bundle ∷ bundles) (bundle ∷ missing)
    passed_over :
        (bundle : Json) (bundles missing : List Json)
        → HasDigest bundle ⊎ HasName bundle
        → IsPicked bundles missing
        → IsPicked (bundle ∷ bundles) missing

not-true : (b : Bool) → not b ≡ true → b ≡ false
not-true true h = cc
not-true false h = refl

not-false : (b : Bool) → not b ≡ false → b ≡ true
not-false true h = refl
not-false false h = cc

-- What is known of the source after it has been read.
record IsRead (env : Env) (bundles : List Json) (source : Source) : Type 0 where
  pub digests :
      (digest : String) → contains digest source.digests ≡ any (has_digest env digest) bundles
  pub names : (name : Json) → has_json name source.csv_names ≡ any (has_name name) bundles

IsRead-one :
    (env : Env) (bundle : Json) (bundles : List Json) (digest : String) (name : Json)
    (rest : Source)
    → digest_of env "source" bundle ≡ ok digest
    → csv_name bundle ≡ ok name
    → IsRead env bundles rest
    → IsRead env
        (bundle ∷ bundles)
        (record { digests = digest ∷ rest.digests; csv_names = name ∷ rest.csv_names })
IsRead-one env bundle bundles digest name rest d n found = record {
  digests = λ x. rw (has_digest, d) (ap (λ b. digest == x || b) (found.digests x));
  names = λ x. rw (has_name, n) (ap (λ b. json_eq name x || b) (found.names x));
}

read_source-IsRead :
    (env : Env) (bundles : List Json) (source : Source)
    → read_source env bundles ≡ ok source
    → IsRead env bundles source
unfolding read_source
read_source-IsRead env [] source h =
    let same : Path Source (record { digests = []; csv_names = [] }) source = cc in
    subst (IsRead env []) same (record { digests = λ d. refl; names = λ n. refl })
read_source-IsRead env (bundle ∷ bundles) source h =
    let (digest, d, h1) = >>=-eq-ok (digest_of env "source" bundle) _ h in
    let (name, n, h2) = >>=-eq-ok (csv_name bundle) _ h1 in
    let (rest, r, last) = >>=-eq-ok (read_source env bundles) _ h2 in
    let same : Path Source
        (record { digests = digest ∷ rest.digests; csv_names = name ∷ rest.csv_names }) source =
      cc in
    subst (IsRead env (bundle ∷ bundles)) same
      (IsRead-one env bundle bundles digest name rest d n (read_source-IsRead env bundles rest r))

module _ (env : Env) (source_bundles : List Json) (source : Source)
    (is_read : IsRead env source_bundles source) where
  -- What is decided of one bundle of the target.
  IsDecided : (missing : Bool) → Json → Type 0
  IsDecided true bundle = IsLacking env source_bundles bundle
  IsDecided false bundle = HasDigest env source_bundles bundle ⊎ HasName env source_bundles bundle

  lacks-IsDecided :
      (digest : String) (bundle : Json) (missing : Bool)
      → digest_of env "target" bundle ≡ ok digest
      → lacks source (digest, bundle) ≡ ok missing
      → IsDecided missing bundle
  unfolding IsDecided
  lacks-IsDecided digest bundle missing d h = by_digest (contains digest source.digests) refl h
    where
      by_name :
          (name : Json) (m : Bool)
          → contains digest source.digests ≡ false
          → csv_name bundle ≡ ok name
          → not (has_json name source.csv_names) ≡ m
          → IsDecided m bundle
      by_name name true c n e = record {
        digest = digest;
        name = name;
        digest_is = d;
        name_is = n;
        new_digest = rw (← is_read.digests digest) c;
        new_name = rw (← is_read.names name) (not-true _ e);
      }
      by_name name false c n e = inr (record {
        name = name;
        name_is = n;
        old_name = rw (← is_read.names name) (not-false _ e);
      })

      by_digest :
          (b : Bool)
          → contains digest source.digests ≡ b
          → Path
              (Result Bool)
              (if b
                then ok false
                else (csv_name bundle >>= λ name. ok (not (has_json name source.csv_names))))
              (ok missing)
          → IsDecided missing bundle
      by_digest true c e =
          let same : false ≡ missing = cc in
          subst (λ m. IsDecided m bundle) same
            (inl (record {
              digest = digest;
              digest_is = d;
              old_digest = rw (← is_read.digests digest) c;
            }))
      by_digest false c e =
          let (name, n, last) = >>=-eq-ok (csv_name bundle) _ e in by_name name missing c n cc

  decided-IsPicked :
      (m : Bool) (bundle : Json) (bundles rest missing : List Json)
      → IsDecided m bundle
      → IsPicked env source_bundles bundles rest
      → (if m then bundle ∷ rest else rest) ≡ missing
      → IsPicked env source_bundles (bundle ∷ bundles) missing
  unfolding IsDecided
  decided-IsPicked true bundle bundles rest missing k p e =
      subst (IsPicked env source_bundles (bundle ∷ bundles)) e (picked bundle bundles rest k p)
  decided-IsPicked false bundle bundles rest missing k p e =
      subst (IsPicked env source_bundles (bundle ∷ bundles)) e (passed_over bundle bundles rest k p)

  pick_missing-IsPicked :
      (bundles : List Json) (entries : List (String × Json)) (missing : List Json)
      → read_target env bundles ≡ ok entries
      → pick_missing source entries ≡ ok missing
      → IsPicked env source_bundles bundles missing
  unfolding pick_missing read_target
  pick_missing-IsPicked [] entries missing t h =
      let no_entries : Path (List (String × Json)) [] entries = cc in
      let same : Path (List Json) [] missing = cc in
      subst (IsPicked env source_bundles []) same none_left
  pick_missing-IsPicked (bundle ∷ bundles) entries missing t h =
      let (digest, d, t1) = >>=-eq-ok (digest_of env "target" bundle) _ t in
      let (rest_entries, r, t2) = >>=-eq-ok (read_target env bundles) _ t1 in
      let same : Path (List (String × Json)) ((digest, bundle) ∷ rest_entries) entries = cc in
      let (m, l, h1) =
        >>=-eq-ok (lacks source (digest, bundle))
          (λ missing. pick_missing source rest_entries >>= λ rest.
            ok (if missing then bundle ∷ rest else rest))
          (subst (λ es. pick_missing source es ≡ ok missing) (sym same) h) in
      let (rest, p, last) = >>=-eq-ok (pick_missing source rest_entries) _ h1 in
      decided-IsPicked m bundle bundles rest missing (lacks-IsDecided digest bundle m d l)
        (pick_missing-IsPicked bundles rest_entries rest r p) cc

-- The bundles that a merge takes for missing in the source are those of the target, in their order,
-- whose digest and CSV name no bundle of the source has. Each of the others has the digest or the
-- CSV name of a bundle of the source.
pub missing_in_source-IsPicked :
    (env : Env) (source_bundles target_bundles missing : List Json)
    → missing_in_source env source_bundles target_bundles ≡ ok missing
    → IsPicked env source_bundles target_bundles missing
unfolding missing_in_source
missing_in_source-IsPicked env source_bundles target_bundles missing h =
    let (source, s, h1) = >>=-eq-ok (read_source env source_bundles) _ h in
    let (target, t, last) = >>=-eq-ok (read_target env target_bundles) _ h1 in
    pick_missing-IsPicked env source_bundles source (read_source-IsRead env source_bundles source s)
      target_bundles target missing t last
