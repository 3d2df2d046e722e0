-- ===== src/Workers/Docker/Resets.antt =====
-- The Docker configuration after each `with` statement that changes it.
use iib.Common.{String, ◌≡◌, refl, Option, none, some, [], ◌∷◌}
use iib.Common.Dict.{Dict}
use iib.Json.{Json}
use iib.Workers.Exec.{Env, World, Exec}
use iib.Workers.Exec.Keeps.{Keeps, Keeps-if}
use iib.Workers.Exec.Adds.{settled}
use iib.Workers.Docker.{
  template_config, reset_docker_config, set_registry_auths, set_registry_token,
}

module _ (env : Env) where
  -- Whatever the configuration was, after a reset it is the template's.
  pub reset_docker_config-resets :
      (w : World) → (reset_docker_config env w).1.docker ≡ template_config env.template
  unfolding reset_docker_config
  reset_docker_config-resets w = refl

  pub Keeps-reset_docker_config :
      Keeps (settled (template_config env.template)) (reset_docker_config env)
  unfolding reset_docker_config settled
  Keeps-reset_docker_config = record { at = λ w h. refl }

  -- Whatever the body of the `with` statement does, and whether it returns or raises, the
  -- configuration after it is the template's: with some credentials, always, and without any,
  -- where the body leaves it so.
  pub set_registry_auths-resets :
      {A : Type 0} (auth : String × Json) (auths : Dict Json) (body : Exec A) (w : World)
      → (set_registry_auths env (auth ∷ auths) body w).1.docker ≡ template_config env.template
  unfolding set_registry_auths reset_docker_config
  set_registry_auths-resets auth auths body w = refl

  pub Keeps-set_registry_auths :
      {A : Type 0} (auths : Dict Json) (body : Exec A)
      → Keeps (settled (template_config env.template)) body
      → Keeps (settled (template_config env.template)) (set_registry_auths env auths body)
  unfolding set_registry_auths settled
  Keeps-set_registry_auths [] body k = k
  Keeps-set_registry_auths (auth ∷ auths) body k = record {
    at = λ w h. set_registry_auths-resets auth auths body w;
  }

  pub Keeps-set_registry_token :
      {A : Type 0} (token container_image : Option String) (body : Exec A)
      → Keeps (settled (template_config env.template)) body
      → Keeps
          (settled (template_config env.template))
          (set_registry_token env token container_image body)
  unfolding set_registry_token
  Keeps-set_registry_token none container_image body k = k
  Keeps-set_registry_token (some token) none body k = k
  Keeps-set_registry_token (some token) (some container_image) body k =
      Keeps-if _ body _ k (Keeps-set_registry_auths _ body k)
