-- ===== src/Lib.antt =====
-- IIB, the Image Builder service: a model of its REST API and its workers, and
-- the theorems about them.
--
-- The REST API (iib/web) takes requests to build operator index images and bundle images, keeps them
-- in a database, announces their states by messages, and schedules Celery tasks. The workers
-- (iib/workers) run the tasks and report the progress by PATCH requests to the API.
--
-- Which file models which part:
--   Common          Python's tests, lists, dicts with text keys and text; Common.Find the methods of
--                   str that search, cut and replace, Common.Format str.format
--   Exn             iib/exceptions.py and the other exceptions that the code raises; a message of the
--                   web code is a constructor for the place that raises it
--   Json            the values of a JSON payload, with Python's truth values and type tests
--   Web.Errors      the status that json_error of iib/web/errors.py gives an exception
--   Web.Mappings    RequestStateMapping and RequestTypeMapping of iib/web/models.py
--   Web.Tables      the rows of iib/web/models.py
--   Web.Request     Request.add_state and add_architecture; Web.Request.History and
--                   Web.Request.Acceptance hold what is proved of them
--   Web.Columns     get_mutable_keys and the image columns of each request type
--   Web.Session     configuration, current user, database session with its transaction, sent messages
--                   and scheduled tasks; the get_or_create methods. A view is a function from a World
--                   to its result, or the exception it raises, and the World that it leaves
--   Web.Params      validate_request_params, validate_registry_auths, validate_architecture_json
--   Web.FromJson    the from_json methods of the four request types
--   Web.Batch       Batch.state, Batch.user, validate_batch_request_params, validate_batch
--   Web.Messaging   which messages iib/web/messaging.py sends
--   Web.Api         iib/web/api_v1.py: task arguments (Args), the views that submit one request
--                   (Submit) and a batch (Batches), the POST routes (Routes), patch_request (Patch);
--                   iib/web/errors.py (Broker). Refusal, Failure and Overwrite hold what is proved of
--                   submissions, Grows and Sound what is proved of any sequence of calls
--   Workers.Exec    the state of a worker (its Docker configuration, its cache, the events so far), what
--                   is outside of it (Env), and actions; Keeps, Adds and Returns are the rules by which
--                   the theorems walk through a do block
--   Workers.Values  subscripts, get and iteration on JSON values, and sets
--   Workers.Docker  set_registry_token, set_registry_auths, reset_docker_config of
--                   iib/workers/tasks/utils.py
--   Workers.Retry, Command, Images, Prepare
--                   the other functions of that file: the decorator retry, run_cmd, skopeo_inspect and
--                   what is asked of an image, RequestConfig (Prepare.Config),
--                   _validate_distribution_scope (Prepare.Scope), prepare_request_for_build
--   Workers.Api     iib/workers/api_utils.py
--   Workers.Cache   iib/workers/dogpile_cache.py
--   Workers.Gating  iib/workers/greenwave.py
--   Workers.Legacy  iib/workers/tasks/legacy.py
--   Workers.Build   iib/workers/tasks/build.py: names of images (PullSpec), building, pushing and copying
--                   (Image), the local registry service (Registry), the bundles of an index image
--                   (Present), the opm commands (Opm), the overwriting of an index image (Overwrite),
--                   the reports (Update), handle_add_request (Add) and handle_rm_request (Rm)
--   Workers.Merge   iib/workers/tasks/build_merge_index_image.py: the bundles that the source lacks
--                   (Missing), is_bundle_version_valid (Version), handle_merge_request
--   Workers.Regenerate
--                   iib/workers/tasks/build_regenerate_bundle.py: what is computed from the contents of
--                   files (Contents), metadata/annotations.yaml (Annotations), the pinning of images
--                   (Pinning), the customizations (Adjust)
--   Workers.Tasks   the tasks by the type of their request, with failed_request_callback of
--                   iib/workers/tasks/general.py; Reports and Docker hold what is proved of all four
--   Workers.Frames  the relations of states that every action of the workers keeps, from which Reports
--                   and Docker are proved, with one child for each group of functions
--   Workers.Settings
--                   validate_celery_config of iib/workers/config.py; Documented compares it with the README
--   Tests           runs on concrete inputs, and each theorem at an input that meets its hypotheses
--
-- Conventions. A session starts from the committed tables, and what is not committed at its end is
-- lost (serve). A commit expires the loaded objects, so the state of a request is read again only
-- then, as SQLAlchemy documents it. Rows that are unique by a text stand by that text. Keys come from
-- the parameter next_id, Celery's broker from broker_up, the AMQP connection from delivered, and the
-- SQLAlchemy constructor, where it is given parameters that nothing has checked, from construct. Text
-- is lowered on the ASCII letters only, which is enough to compare with prod, stage and dev. Every
-- loop of the web code runs over a list, so no fuel is needed.
--
-- The workers. A task is an action on the state of its worker. What it does outside (commands that it
-- runs, HTTP requests, files that it writes, waits) is an event of the state, the newest first. What
-- comes back from outside (the exit status and output of a command, a response, a port that is taken,
-- the time) is a parameter of Env that may depend on all the events so far, so a tool may answer
-- differently each time. A set is a list without repetitions, and the order of list(set) is the
-- parameter listed. retry runs on the number of attempts that are left. The wait of
-- _serve_index_registry runs on fuel, one unit for each second of its wait time, which is all it can
-- use. The steps of a task stand apart from its last line, which sets the state to complete.
--
-- The contents of a bundle's files are JSON values, which stand for what ruamel.yaml loads. What
-- operator_manifest finds in them and makes of them is a parameter.
--
-- Not modelled: logging, HTTP and JSON encoding, authentication by Kerberos, the migrations, the
-- pagination of get_builds and the JSON that the views answer; of the workers, the modes of files and
-- the log file of a request, how the configuration file and the session with its HTTP retries are set
-- up, and the notations of a version number other than plain decimals.
pub mod Common
pub mod Exn
pub mod Json
pub mod Tests
pub mod Web
pub mod Workers
