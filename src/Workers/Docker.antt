-- ===== src/Workers/Docker.antt =====
-- iib/workers/tasks/utils.py, the Docker configuration with which the container tools log in to the
-- registries: `reset_docker_config` and the two context managers that change it for a while. A
-- context manager is a function of the body of its `with` statement.
pub mod Resets
use iib.Common.{String, ◌==◌, ◌||◌, if◌then◌else◌, Option, none, some, [], ◌∷◌}
use iib.Common.Dict.{Dict, get, put}
use iib.Exn.{Result, ok, err, attribute_error}
use iib.Json.{Json, obj, str, fields}
use iib.Workers.Values.{to_fields}
use iib.Workers.Exec.{Env, Exec, DockerConfig, absent, linked, written, lift, finally, ◌>>=◌, ◌>>◌}

abbrev pub set_docker : DockerConfig → Exec (Unit {0})
set_docker d w = (ok tt, record w { docker = d })

-- What a reset leaves.
abbrev pub template_config : Option (Dict Json) → DockerConfig
template_config none = absent
template_config (some config) = linked

unfoldable pub reset_docker_config : Env → Exec (Unit {0})
reset_docker_config env = do set_docker absent; set_docker (template_config env.template)

-- `d.update(e)`
unfoldable pub update : Dict Json → Dict Json → Dict Json
update d [] = d
update d ((k, v) ∷ e) = update (put k v d) e

-- `d[k].update(e)`
unfoldable pub update_auths : (docker_config auths : Dict Json) → Result (Dict Json)
unfolding update
update_auths docker_config auths = elim (get "auths" docker_config) [
  | some (obj fs) ↦ ok (put "auths" (obj (to_fields (update (fields fs) auths))) docker_config)
  | some _ ↦ err attribute_error
  | none ↦ ok (put "auths" (obj (to_fields (update [] auths))) docker_config)
]

abbrev or_empty : Option (Dict Json) → Dict Json
or_empty none = []
or_empty (some d) = d

-- `registry_auths.get('auths', {})`
abbrev auths_of : Dict Json → Result (Dict Json)
auths_of registry_auths = elim (get "auths" registry_auths) [
  | some (obj fs) ↦ ok (fields fs)
  | some _ ↦ err attribute_error
  | none ↦ ok []
]

unfoldable pub set_registry_auths :
    {A : Type 0} → Env → (registry_auths : Dict Json) → Exec A → Exec A
unfolding reset_docker_config update_auths
set_registry_auths env [] body = body
set_registry_auths env (auth ∷ auths) body =
    finally
      (do
        set_docker absent
        given ← lift (auths_of (auth ∷ auths))
        docker_config ← lift (update_auths (or_empty env.template) given)
        set_docker (written docker_config)
        body)
      (reset_docker_config env)

-- `{'auths': {registry: {'auth': encoded_token}}}`
unfoldable pub token_auths : (registry encoded_token : String) → Dict Json
token_auths registry encoded_token =
    ("auths", obj (to_fields ((registry, obj (to_fields (("auth", str encoded_token) ∷ []))) ∷ [])))
    ∷ []

unfoldable pub set_registry_token :
    {A : Type 0} → Env → (token container_image : Option String) → Exec A → Exec A
unfolding token_auths
set_registry_token env none container_image body = body
set_registry_token env (some token) none body = body
set_registry_token env (some token) (some container_image) body =
    if token == "" || container_image == ""
    then body
    else set_registry_auths env (token_auths (env.registry_of container_image) (env.base64 token))
        body
