-- ===== src/Web/Api/Batches/Quiet.antt =====
-- The first loop of a batch view changes nothing outside the session.
use iib.Common.{ℕ, refl, Option, List, [], ◌∷◌}
use iib.Common.Dict.{Dict}
use iib.Exn.{
  Result, ok, err, Reason, validation_error, forbidden, not_found, gone, iib_error, type_error,
  attribute_error, key_error, value_error, of_worker,
}
use iib.Json.{Json}
use iib.Web.Session.{Env, Exec, rollback}
use iib.Web.Session.Quiet.{
  SameOutside-trans, IsQuiet, IsQuiet-bind, IsQuiet-pure, IsQuiet-raise, quiet_rules,
}
use iib.Web.FromJson.Index.{add_batch}
use iib.Web.FromJson.Quiet.{
  IsQuiet-add_from_json, IsQuiet-rm_from_json, IsQuiet-regenerate_from_json,
}
use iib.Web.Api.Batches.{
  recover, catch_invalid, create_regenerate, add_or_rm_from_json, create_add_or_rm, create_all,
}

module _ {A : Type 0} where
  IsQuiet-recover :
      (r : Result A) (handler : Reason → Exec A)
      → ((x : Reason) → IsQuiet (handler x))
      → IsQuiet (recover r handler)
  unfolding recover
  IsQuiet-recover (ok a) handler k = IsQuiet-pure a
  IsQuiet-recover (err (validation_error x)) handler k = k x
  IsQuiet-recover (err (iib_error x)) handler k = IsQuiet-raise _
  IsQuiet-recover (err (forbidden x)) handler k = IsQuiet-raise _
  IsQuiet-recover (err not_found) handler k = IsQuiet-raise _
  IsQuiet-recover (err gone) handler k = IsQuiet-raise _
  IsQuiet-recover (err type_error) handler k = IsQuiet-raise _
  IsQuiet-recover (err attribute_error) handler k = IsQuiet-raise _
  IsQuiet-recover (err key_error) handler k = IsQuiet-raise _
  IsQuiet-recover (err value_error) handler k = IsQuiet-raise _
  IsQuiet-recover (err (of_worker e)) handler k = IsQuiet-raise _

  IsQuiet-catch_invalid :
      (m : Exec A) (handler : Reason → Exec A)
      → IsQuiet m
      → ((x : Reason) → IsQuiet (handler x))
      → IsQuiet (catch_invalid m handler)
  unfolding catch_invalid
  IsQuiet-catch_invalid m handler km kh = record {
    at = λ w.
        let (r, w') = m w in SameOutside-trans (km.at w) ((IsQuiet-recover r handler kh).at w');
  }

IsQuiet-rollback : IsQuiet rollback
unfolding rollback
IsQuiet-rollback = record { at = λ w. record { committed = refl; sent = refl; scheduled = refl } }

module _ (env : Env) where
  pub IsQuiet-create_regenerate :
      (build_requests : List Json) (batch : ℕ) (b : Json)
      → IsQuiet (create_regenerate env build_requests batch b)
  unfolding create_regenerate
  IsQuiet-create_regenerate build_requests batch b =
      search (quiet_rules, IsQuiet-catch_invalid, IsQuiet-rollback, IsQuiet-regenerate_from_json)
        depth 12

  IsQuiet-add_or_rm_from_json :
      (batch : ℕ) (b : Dict Json) → IsQuiet (add_or_rm_from_json env batch b)
  unfolding add_or_rm_from_json
  IsQuiet-add_or_rm_from_json batch b =
      search (quiet_rules, IsQuiet-add_from_json, IsQuiet-rm_from_json) depth 12

  pub IsQuiet-create_add_or_rm :
      (build_requests : List Json) (batch : ℕ) (b : Json)
      → IsQuiet (create_add_or_rm env build_requests batch b)
  unfolding create_add_or_rm
  IsQuiet-create_add_or_rm build_requests batch b =
      search (quiet_rules, IsQuiet-catch_invalid, IsQuiet-add_or_rm_from_json) depth 12

  pub IsQuiet-create_all :
      (create : Json → Exec ℕ) (build_requests : List Json)
      → ((b : Json) → IsQuiet (create b))
      → IsQuiet (create_all env create build_requests)
  unfolding create_all
  IsQuiet-create_all create [] k = search quiet_rules
  IsQuiet-create_all create (b ∷ bs) k = IsQuiet-bind (create b) _ (k b) (λ id.
      IsQuiet-bind (create_all env create bs) _ (IsQuiet-create_all create bs k)
        (λ ids. IsQuiet-pure _))

  pub IsQuiet-add_batch : (annotations : Option Json) → IsQuiet (add_batch env annotations)
  unfolding add_batch
  IsQuiet-add_batch annotations = record {
    at = λ w. record { committed = refl; sent = refl; scheduled = refl };
  }
