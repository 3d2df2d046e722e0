-- ===== src/Workers/Command.antt =====
-- `run_cmd` of iib/workers/tasks/utils.py.
use iib.Common.{String, Bool, false, Option, none, some, List, [], ◌∷◌, ◌==◌, if◌then◌else◌}
use iib.Common.Text.{◌⧺◌}
use iib.Common.Find.{strip_prefix, split_lines, reversed, rstrip}
use iib.Exn.{ok, iib_error, of_worker, os_error}
use iib.Workers.Exec.{Env, Exec, Response, ran, pure, raise, ask, ◌>>=◌, ◌>>◌}

-- `re.match(r'^(?:Error: )(.+)$', msg)` and its group
unfoldable pub error_of_line : String → Option String
error_of_line msg = elim (strip_prefix "Error: " msg) [
  | some rest ↦ if rest == "" then none else some rest
  | none ↦ none
]

-- The first of the lines that matches.
unfoldable pub first_error : List String → Option String
unfolding error_of_line
first_error [] = none
first_error (line ∷ lines) = elim (error_of_line line) [
  | some message ↦ some message
  | none ↦ first_error lines
]

unfoldable pub is_opm : List String → Bool
is_opm [] = false
is_opm (program ∷ args) = program == "opm"

-- The message of the IIBError that a failed command raises.
unfoldable pub failure_message : (cmd : List String) → (exc_msg stderr : String) → String
unfolding first_error is_opm
failure_message cmd exc_msg stderr =
    let plain = exc_msg in
    if is_opm cmd
    then elim (first_error (reversed (split_lines stderr))) [
      | some message ↦ rstrip b'.' exc_msg ⧺ ": " ⧺ message
      | none ↦ plain
    ]
    else plain

-- `exc_msg or default`
abbrev pub or_text : Option String → String → String
or_text none default = default
or_text (some s) default = if s == "" then default else s

abbrev pub answered : (cmd : List String) → (exc_msg : String) → Option Response → Exec String
answered cmd exc_msg none = raise (of_worker os_error)
answered cmd exc_msg (some response) =
    if response.succeeded
    then pure response.stdout
    else raise (iib_error (failure_message cmd exc_msg response.stderr))

abbrev pub mark_run : (cwd : Option String) → (cmd : List String) → Exec (Unit {0})
mark_run cwd cmd w = (ok tt, record w { events = ran w.docker cwd cmd ∷ w.events })

unfoldable pub run_cmd : Env → (cmd : List String) → (cwd exc_msg : Option String) → Exec String
unfolding failure_message
run_cmd env cmd cwd exc_msg = do
  mark_run cwd cmd
  response ← ask env.run
  answered cmd (or_text exc_msg "An unexpected error occurred") response
