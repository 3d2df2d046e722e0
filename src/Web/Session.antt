-- ===== src/Web/Session.antt =====
-- What a view of iib/web/api_v1.py works on: the configuration, the current user, the database
-- session with its transaction, the messages that were sent and the tasks that were scheduled.
pub mod Quiet
pub mod Atomic
pub mod Sound
pub mod Returns
pub mod Images
use iib.Common.{
  ℕ, String, Bool, ◌||◌, Option, none, List, [], ◌∷◌, ◌++◌, map, contains, if◌then◌else◌,
}
use iib.Common.Dict.{Dict}
use iib.Common.Text.{has_char}
use iib.Exn.{Exn, Result, ok, err, validation_error, image_without_tag}
use iib.Json.{Json}
use iib.Web.Tables.{Image, RequestState, Request, Batch, Tables}
use iib.Web.Request.{refresh}

-- The settings of iib/web/config.py that the views read. A value that is only passed on or tested
-- for truth is JSON. The keys of the Greenwave configuration are queues, `None` among them.
pub record Config : Type 0 where
  pub binary_image_config : Json
  pub force_overwrite_from_index : Bool
  pub greenwave_config : Option String → Json
  pub messaging_batch_state_destination : Option String
  pub messaging_build_state_destination : Option String
  pub messaging_urls : List String
  pub privileged_usernames : List String
  pub user_to_queue : Dict String
  pub worker_usernames : List String

-- An AMQP message: its address, the content that names a request or a batch, its state and its
-- user.
pub data Envelope : Type 0 where
  request_message :
      (address : String) (id batch : ℕ) (request_type state : String) (user : Option String)
      → Envelope
  batch_message :
      (address : String) (batch : ℕ) (requests : List (ℕ × String)) (state : String)
      (user : Option String)
      → Envelope

pub data Handler : Type 0 where
  handle_add_request handle_rm_request handle_regenerate_bundle_request handle_merge_request :
      Handler

-- A call of `apply_async`. `argsrepr` is what Celery logs in place of the arguments.
pub record Task : Type 0 where
  pub handler : Handler
  pub request_id : ℕ
  pub args : List Json
  pub argsrepr : List Json
  pub queue : Option String

-- `current_user` is the name of the authenticated user; it is `none` only when authentication is
-- disabled. `next_id` is the database's choice of a key, from the keys in use, and `broker_up`
-- says whether Celery's broker takes a task, from the tasks that it has taken. `delivered` is the
-- number of messages that go out before the AMQP connection fails, if it does. `construct` is
-- what the constructor of a SQLAlchemy model does with the keyword arguments that a `from_json`
-- method passes on from the payload as they are.
pub record Env : Type 0 where
  pub config : Config
  pub current_user : Option String
  pub next_id : List ℕ → ℕ
  pub broker_up : List Task → Bool
  pub delivered : List Envelope → ℕ
  pub construct : Dict Json → Request → Result Request

-- `tables` is what the session sees, `committed` what the database holds.
pub record World : Type 0 where
  pub tables : Tables
  pub committed : Tables
  pub sent : List Envelope
  pub scheduled : List Task
  pub now : ℕ

abbrev pub Exec {ℓ} : Type ℓ → Type ℓ
Exec A = World → Result A × World

module _ {ℓ} {A : Type ℓ} where
  abbrev pub pure : A → Exec A
  pure a w = (ok a, w)

  abbrev pub raise : Exn → Exec A
  raise e w = (err e, w)

  -- A function that only computes or raises.
  abbrev pub lift : Result A → Exec A
  lift r w = (r, w)

module _ {A B : Type 0} where
  abbrev pub continue : Result A → (A → Exec B) → Exec B
  continue (ok a) f w = f a w
  continue (err e) f w = (err e, w)

  infixl 5 ◌>>=◌ ◌>>◌
  abbrev pub ◌>>=◌ : Exec A → (A → Exec B) → Exec B
  ◌>>=◌ m f w = let (r, w') = m w in continue r f w'

  abbrev pub ◌>>◌ : Exec A → Exec B → Exec B
  m >> n = m >>= λ _. n

-- `if c: raise ...`
abbrev pub raise_if : Bool → Exn → Exec (Unit {0})
raise_if c e w = (if c then err e else ok tt, w)

abbrev pub modify : (World → World) → Exec (Unit {0})
modify f w = (ok tt, f w)

-- `[f(x) for x in xs]`, where `f` may raise and change the session
unfoldable pub for_each : {A B : Type 0} → (A → Exec B) → List A → Exec (List B)
for_each f [] = pure []
for_each f (x ∷ xs) = do y ← f x; ys ← for_each f xs; pure (y ∷ ys)

-- A commit expires what the session has loaded, so that every request is read again.
abbrev pub refresh_all : Tables → Tables
refresh_all t = record t { requests = map refresh t.requests }

unfoldable pub commit : Exec (Unit {0})
commit w = (ok tt, record w { tables = refresh_all w.tables; committed = refresh_all w.tables })

unfoldable pub rollback : Exec (Unit {0})
rollback w = (ok tt, record w { tables = w.committed })

-- One HTTP request: it starts from what the database holds, and what it has not committed is lost.
unfoldable pub serve : {A : Type 0} → Exec A → Exec A
unfolding rollback
serve m w = let (r, w') = m (rollback w).1 in (r, (rollback w').1)

unfoldable pub image_names : List Image → List String
image_names [] = []
image_names (i ∷ images) = i.pull_specification ∷ image_names images

-- `Image.get_or_create`
unfoldable pub get_or_create_image : String → Exec String
unfolding image_names
get_or_create_image spec w =
    if has_char b'@' spec || has_char b':' spec
    then (
      ok spec,
      if contains spec (image_names w.tables.images) then w else record w {
        tables = record w.tables {
          images = w.tables.images ++ record { pull_specification = spec; operator = none } ∷ [];
        };
      },
    )
    else (err (validation_error (image_without_tag spec)), w)

-- `Operator.get_or_create`
unfoldable pub get_or_create_operator : String → Exec String
get_or_create_operator name w = (
  ok name,
  if contains name w.tables.operators
      then w
      else record w { tables = record w.tables { operators = w.tables.operators ++ name ∷ [] } },
)

-- The row of `Request.add_architecture`.
unfoldable pub get_or_create_architecture : String → Exec String
get_or_create_architecture name w = (
  ok name,
  if contains name w.tables.architectures then w else record w {
    tables = record w.tables { architectures = w.tables.architectures ++ name ∷ [] };
  },
)

-- The keys in use.
unfoldable pub request_ids : List Request → List ℕ
request_ids [] = []
request_ids (r ∷ requests) = r.id ∷ request_ids requests

unfoldable pub batch_ids : List Batch → List ℕ
batch_ids [] = []
batch_ids (b ∷ batches) = b.id ∷ batch_ids batches

unfoldable pub state_ids : List RequestState → List ℕ
state_ids [] = []
state_ids (s ∷ states) = s.id ∷ state_ids states

unfoldable pub all_state_ids : List Request → List ℕ
unfolding state_ids
all_state_ids [] = []
all_state_ids (r ∷ requests) = state_ids r.states ++ all_state_ids requests
