-- ===== src/Workers/Build/Overwrite/Changed.antt =====
-- `_overwrite_from_index` of iib/workers/tasks/build.py on an index image that has changed since the
-- build began.
use iib.Common.{ℕ, String, false, Option, some, ◌≡◌, refl}
use iib.Exn.{ok, err}
use iib.Workers.Exec.{Env, World}
use iib.Workers.Docker.{set_registry_token}
use iib.Workers.Images.{get_resolved_image}
use iib.Workers.Build.Overwrite.{
  overwrite_from_index, verify_index_image, image_changed, same_text?,
}

-- Where the index image, resolved again with the request's token, is not the image that it was
-- before the build, the request fails with the message that says so, and the state is the one that
-- the resolving has left: nothing is copied, and nothing is reported.
pub overwrite_from_index-changed :
    (env : Env) (request_id : ℕ) (output_pull_spec from_index : String)
    (prebuild token : Option String) (w w' : World) (resolved : String)
    → set_registry_token env token (some from_index) (get_resolved_image env from_index) w
      ≡ (ok resolved, w')
    → same_text? resolved prebuild ≡ false
    → overwrite_from_index env request_id output_pull_spec from_index prebuild token w
      ≡ (err image_changed, w')
unfolding overwrite_from_index verify_index_image
overwrite_from_index-changed env request_id output_pull_spec from_index prebuild token w w' resolved
      h d =
    rw (h, d) refl
