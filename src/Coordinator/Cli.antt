-- ===== src/Coordinator/Cli.antt =====
-- The child process of scripts/actions_journal_coordinator.py: its arguments, its result and the record
-- that it prints. The runner and the file system are injected.
use zach.Common.{
  ℕ, ◌+◌, Bool, true, false, not, ◌&&◌, Option, none, some, List, [], ◌∷◌, String, ◌⊹◌, len, str_eq,
  leb, ◌==◌, contains, count_code, if◌then◌else◌,
}
use zach.Python.Value.{Value, get, is_dict, as_str}
use zach.Action.{
  Result, ok, err, Action, bind, require, or_raise, recode, raise, lift, try, ◌>>=◌, ◌>>◌,
}
use zach.Action.Error.{Exc, CoordinatorCode, coordinator_error}
use zach.Platform.{Platform}
use zach.Journal.Record.{max_record_bytes, validate_request_id, parse_and_validate_record, decoded}

abbrev pub max_cli_stdout_bytes : ℕ
max_cli_stdout_bytes = max_record_bytes + 1

abbrev pub max_cli_stderr_bytes : ℕ
max_cli_stderr_bytes = 1024

-- An exit status, or the negative number of the signal that ended the child.
pub data ReturnCode : Type 0 where
  exited : ℕ → ReturnCode
  signalled : ℕ → ReturnCode

pub record CliProcessResult (B : Type 0) : Type 0 where
  pub returncode : ReturnCode
  pub stdout : B
  pub stderr : B

-- What the coordinator is given: the runner of the executable, temporary directories, and the exclusive
-- creation of a private file, which is false on an `OSError`.
pub record Host (B W : Type 0) : Type 0 where
  pub run_cli : List String → Action W (CliProcessResult B)
  pub open_directory : Action W String
  pub close_directory : String → Action W (Unit {0})
  pub create_private : String → B → W → Bool × W

abbrev pub is_returned : List ℕ → ReturnCode → Bool
is_returned allowed (exited n) = contains n allowed
is_returned allowed (signalled n) = false

abbrev pub failure_code : ReturnCode → CoordinatorCode
failure_code (exited n) =
    if n == 2
    then CoordinatorCode.cli_validation_failed
    else if n == 1
    then CoordinatorCode.cli_io_failed
    else CoordinatorCode.cli_failed
failure_code (signalled n) = CoordinatorCode.cli_failed

-- `"\x00" in arg or len(os.fsencode(arg)) > 4096` for no argument
abbrev pub are_arguments : List String → Bool
are_arguments [] = true
are_arguments (arg ∷ args) = (count_code 0 arg == 0 && leb (len arg) 4096) && are_arguments args

-- `except CoordinatorError: raise` and `except Exception: raise CoordinatorError("cli_failed")`
abbrev pub cli_exception : Exc → Exc
cli_exception (coordinator_error code) = coordinator_error code
cli_exception e = coordinator_error CoordinatorCode.cli_failed

abbrev pub record_output_invalid : Exc
record_output_invalid = coordinator_error CoordinatorCode.cli_record_output_invalid

module _ {B : Type 0} (p : Platform B) where
  unfoldable pub checked_result : List ℕ → CliProcessResult B → Result (CliProcessResult B)
  checked_result allowed_codes result =
      bind
        (require
          (leb (p.size result.stdout) max_cli_stdout_bytes
            && leb (p.size result.stderr) max_cli_stderr_bytes)
          (coordinator_error CoordinatorCode.cli_output_too_large))
        λ _.
          bind
            (require (is_returned allowed_codes result.returncode)
              (coordinator_error (failure_code result.returncode)))
            λ _.
              bind
                (require (p.size result.stderr == 0)
                  (coordinator_error CoordinatorCode.cli_unexpected_stderr))
                λ _. ok result

  -- `stdout[:-1]` where the only newline is the last byte
  unfoldable pub single_line : List B → Option B
  single_line (raw ∷ last ∷ []) = if p.size last == 0 then some raw else none
  single_line parts = none

  abbrev pub expected_or : Option String → String → String
  expected_or none request_id = request_id
  expected_or (some expected) request_id = if str_eq expected "" then request_id else expected

  -- The checks of `_record_from_stdout`; each failure has the same code.
  unfoldable pub printed_record : B → Option String → Result (String × Value)
  printed_record stdout expected_request_id =
      bind (or_raise (single_line (p.split_newline stdout)) record_output_invalid) λ raw.
        bind
          (require (not (p.size raw == 0) && leb (p.size raw) max_record_bytes)
            record_output_invalid)
          λ _. bind (or_raise (p.decode raw) record_output_invalid) λ text.
            bind (decoded true (p.loads text)) λ parsed.
              bind (require (is_dict parsed) record_output_invalid) λ _.
                bind (or_raise (as_str (get "request_id" parsed)) record_output_invalid)
                  λ request_id. bind (validate_request_id request_id) λ _.
                    bind
                      (parse_and_validate_record p text
                        (expected_or expected_request_id request_id))
                      λ _. ok (text, parsed)

  unfoldable pub record_from_stdout : B → Option String → Result (String × Value)
  record_from_stdout stdout expected_request_id =
      recode record_output_invalid (printed_record stdout expected_request_id)

module _ {B W : Type 0} (p : Platform B) (host : Host B W) (cli_executable : String) where
  unfoldable pub invoke : String → List String → List ℕ → Action W (CliProcessResult B)
  invoke command arguments allowed_codes = do
    let argv = cli_executable ∷ command ∷ arguments
    lift (require (are_arguments argv) (coordinator_error CoordinatorCode.invalid_cli_argument))
    result ← try (host.run_cli argv) (λ e. raise (cli_exception e))
    lift (checked_result p allowed_codes result)

module _ {B W : Type 0} (host : Host B W) where
  unfoldable pub write_private : String → String → B → Action W String
  write_private directory name content w =
      let path = directory ⊹ "/" ⊹ name in
      let (written, w') = host.create_private path content w in
      (
        if written then ok path else err (coordinator_error CoordinatorCode.private_input_failed),
        w',
      )

  -- An exception of the removal replaces the outcome of the block.
  abbrev pub removed : {A : Type 0} → Result A → Result (Unit {0}) × W → Result A × W
  removed r (ok _, w) = (r, w)
  removed r (err e, w) = (err e, w)

  -- `with tempfile.TemporaryDirectory(...) as directory: block`
  unfoldable pub with_directory : {A : Type 0} → (String → Action W A) → Action W A
  with_directory block = do
    directory ← host.open_directory
    λ w. let (r, w') = block directory w in removed r (host.close_directory directory w')
