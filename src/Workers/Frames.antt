-- ===== src/Workers/Frames.antt =====
-- What a relation of states must allow for every action of the workers to keep it, and that the
-- actions all modules share keep it.
pub mod Images
pub mod Prepare
pub mod Build
pub mod Present
pub mod Reports
pub mod Gating
pub mod Update
pub mod Regenerate
pub mod Steps
pub mod Tasks
use iib.Common.{ℕ, String, Bool, true, Option, none, some, List, [], ◌∷◌, ◌≡◌, refl, dec_str}
use iib.Common.Dict.{Dict, get, keys}
use iib.Exn.{ok}
use iib.Json.{Json, str, json_eq}
use iib.Web.Mappings.{RequestTypeMapping, generic, add, rm, regenerate_bundle, merge_index_image}
use iib.Web.Columns.{get_mutable_keys}
use iib.Web.Api.Patch.{check_keys}
use iib.Workers.Exec.{
  Env, Exec, Response, Answer, connection_failed, refused, accepted, emit, started, polled, killed,
  slept, patched, posted, opened_dir, removed_dir, changed_modes, wrote, appended,
}
use iib.Workers.Exec.Keeps.{Frame, Keeps, Keeps-raise, Keeps-pure, Keeps-if, keeping_rules}
use iib.Workers.Command.{run_cmd, mark_run, answered}
use iib.Workers.Cache.{region_set, dogpile_cache, use_or_call}
use iib.Workers.Docker.{reset_docker_config, set_registry_auths, set_registry_token}
use iib.Workers.Api.{update_request, set_request_state, handle_answer}

-- The state that a payload sets, if any, is in_progress.
unfoldable pub is_progress : Dict Json → Bool
is_progress payload = elim (get "state" payload) [
  | none ↦ true
  | some v ↦ json_eq v (str "in_progress")
]

-- A payload with keys that the API lets a worker change on a request of this type, and which does
-- not end the request.
pub record IsReport (type : RequestTypeMapping) (payload : Dict Json) : Type 0 where
  pub has_mutable_keys : check_keys type payload ≡ ok tt
  pub leaves_open : is_progress payload ≡ true

-- The changes of state that a relation allows to a task for the request.
pub record Allows (env : Env) (type : RequestTypeMapping) (request_id : ℕ) (F : Frame)
    : Type 1 where
  pub runs : (cwd : Option String) (cmd : List String) → Keeps F (mark_run cwd cmd)
  pub caches : (should : Bool) (key : String) (v : Json) → Keeps F (region_set should key v)
  pub logs_in :
      {A : Type 0} (auths : Dict Json) (body : Exec A)
      → Keeps F body
      → Keeps F (set_registry_auths env auths body)
  pub resets : Keeps F (reset_docker_config env)
  pub starts : (cmd : List String) → Keeps F (emit (started cmd))
  pub polls : Keeps F (emit polled)
  pub kills : Keeps F (emit killed)
  pub sleeps : Keeps F (emit slept)
  pub posts : (url : String) (payload : Json) → Keeps F (emit (posted url payload))
  pub opens : (path : String) → Keeps F (emit (opened_dir path))
  pub removes : (path : String) → Keeps F (emit (removed_dir path))
  pub changes : (path : String) → Keeps F (emit (changed_modes path))
  pub writes : (path text : String) → Keeps F (emit (wrote path text))
  pub appends : (path text : String) → Keeps F (emit (appended path text))
  pub reports :
      (payload : Dict Json) (answer : Answer)
      → IsReport type payload
      → Keeps F (emit (patched request_id payload answer))

pub state-IsReport :
    (type : RequestTypeMapping) (reason : String)
    → IsReport type (("state", str "in_progress") ∷ ("state_reason", str reason) ∷ [])
unfolding check_keys get_mutable_keys is_progress get keys dec_str json_eq
state-IsReport generic reason = record { has_mutable_keys = refl; leaves_open = refl }
state-IsReport add reason = record { has_mutable_keys = refl; leaves_open = refl }
state-IsReport rm reason = record { has_mutable_keys = refl; leaves_open = refl }
state-IsReport regenerate_bundle reason = record { has_mutable_keys = refl; leaves_open = refl }
state-IsReport merge_index_image reason = record { has_mutable_keys = refl; leaves_open = refl }

module _ (env : Env) (request_id : ℕ) {F : Frame} where
  Keeps-handle_answer :
      (payload : Dict Json) (exc_msg : Option String) (answer : Answer)
      → Keeps F (handle_answer env request_id payload exc_msg answer)
  Keeps-handle_answer payload exc_msg connection_failed = Keeps-raise _
  Keeps-handle_answer payload exc_msg refused = search keeping_rules
  Keeps-handle_answer payload exc_msg accepted = search keeping_rules

  -- A PATCH request keeps what the event of it keeps.
  pub Keeps-patch :
      (payload : Dict Json) (exc_msg : Option String)
      → ((answer : Answer) → Keeps F (emit (patched request_id payload answer)))
      → Keeps F (update_request env request_id payload exc_msg)
  unfolding update_request
  Keeps-patch payload exc_msg k = search (keeping_rules, k, Keeps-handle_answer) depth 12

module _ {env : Env} {type : RequestTypeMapping} {request_id : ℕ} {F : Frame}
    (a : Allows env type request_id F) where
  Keeps-answered :
      (cmd : List String) (exc_msg : String) (r : Option Response)
      → Keeps F (answered cmd exc_msg r)
  Keeps-answered cmd exc_msg none = Keeps-raise _
  Keeps-answered cmd exc_msg (some response) = search keeping_rules

  pub Keeps-run_cmd :
      (cmd : List String) (cwd exc_msg : Option String) → Keeps F (run_cmd env cmd cwd exc_msg)
  unfolding run_cmd
  Keeps-run_cmd cmd cwd exc_msg = search (keeping_rules, a.runs, Keeps-answered) depth 12

  pub Keeps-update_request :
      (payload : Dict Json) (exc_msg : Option String)
      → IsReport type payload
      → Keeps F (update_request env request_id payload exc_msg)
  Keeps-update_request payload exc_msg fits =
      Keeps-patch env request_id payload exc_msg (λ answer. a.reports payload answer fits)

  pub Keeps-set_request_state :
      (reason : String) → Keeps F (set_request_state env request_id "in_progress" reason)
  unfolding set_request_state
  Keeps-set_request_state reason =
      Keeps-update_request _
        (some "Setting the state to \"{state}\" on request {request_id} failed")
        (state-IsReport type reason)

  pub Keeps-set_registry_token :
      {A : Type 0} (token image : Option String) (body : Exec A)
      → Keeps F body
      → Keeps F (set_registry_token env token image body)
  unfolding set_registry_token
  Keeps-set_registry_token none image body k = k
  Keeps-set_registry_token (some token) none body k = k
  Keeps-set_registry_token (some token) (some image) body k =
      Keeps-if _ body _ k (a.logs_in _ body k)

  Keeps-use_or_call :
      (should : Bool) (key : String) (func : Exec Json) (found : Option Json)
      → Keeps F func
      → Keeps F (use_or_call should key func found)
  Keeps-use_or_call should key func (some v) k = Keeps-pure v
  Keeps-use_or_call should key func none k = search (keeping_rules, a.caches) depth 12

  pub Keeps-dogpile_cache :
      (should : Bool) (key : String) (func : Exec Json)
      → Keeps F func
      → Keeps F (dogpile_cache env should key func)
  unfolding dogpile_cache
  Keeps-dogpile_cache should key func k = record {
    at = λ w. (Keeps-use_or_call should key func _ k).at w;
  }
