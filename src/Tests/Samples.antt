-- ===== src/Tests/Samples.antt =====
-- A configuration, an environment and a database with one request in progress.
use iib.Common.{ℕ, suc, true, String, Option, none, some, List, [], ◌∷◌, ltb, if◌then◌else◌}
use iib.Exn.{ok}
use iib.Json.{null, obj, end}
use iib.Web.Mappings.{add}
use iib.Web.Tables.{RequestState, Request, Tables}
use iib.Web.Session.{Config, Env, World}

abbrev pub config : Config
config = record {
  binary_image_config = obj end;
  force_overwrite_from_index = true;
  greenwave_config = λ queue. null;
  messaging_batch_state_destination = some "topic://batch";
  messaging_build_state_destination = some "topic://build";
  messaging_urls = "amqps://broker:5671" ∷ [];
  privileged_usernames = "tbrady" ∷ [];
  user_to_queue = ("SERIAL:tbrady", "serial") ∷ ("tbrady", "plain") ∷ [];
  worker_usernames = "worker" ∷ [];
}

-- One more than the largest key.
abbrev pub above : List ℕ → ℕ
above [] = 1
above (n ∷ ids) = let m = above ids in if ltb n m then m else suc n

abbrev pub env_of : Option String → Env
env_of user = record {
  config = config;
  current_user = user;
  next_id = above;
  broker_up = λ tasks. true;
  delivered = λ envelopes. 2;
  construct = λ kwargs r. ok r;
}

abbrev pub initiated : RequestState
initiated = record { id = 1; state = 1; state_reason = "The request was initiated"; updated = 0 }

abbrev pub done : RequestState
done = record { id = 2; state = 2; state_reason = "Built"; updated = 5 }

abbrev pub request_with : List RequestState → RequestState → Request
request_with states current = record {
  id = 1;
  type = add;
  batch_id = 1;
  user = some "tbrady";
  architectures = [];
  states = states;
  request_state_id = some current.id;
  state = some current;
  images = [];
  bundles = "some:bundle" ∷ [];
  deprecation_list = [];
  operators = [];
  organization = none;
  omps_operator_version = none;
  distribution_scope = none;
}

abbrev pub running : Request
running = request_with (initiated ∷ []) initiated

abbrev pub built : Request
built = request_with (initiated ∷ done ∷ []) done

abbrev pub tables_of : List Request → Tables
tables_of requests = record {
  images = record { pull_specification = "some:bundle"; operator = none } ∷ [];
  operators = [];
  architectures = [];
  users = "tbrady" ∷ [];
  batches = record { id = 1; annotations = none } ∷ [];
  requests = requests;
}

abbrev pub world_of : List Request → World
world_of requests = record {
  tables = tables_of requests;
  committed = tables_of requests;
  sent = [];
  scheduled = [];
  now = 7;
}
