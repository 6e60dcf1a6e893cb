-- ===== src/Provider/Exec.antt =====
-- `RunInContainer` and the terminal size of pkg/provider/pod.go. The connection is a library, `X` its
-- executor; the caller's streams are known by whether they are there.
use tensile_kube.Prelude.{ℕ, String, Bool, Option, none, some, List, [], ◌∷◌, ◌++◌, if◌then◌else◌}
use tensile_kube.Prelude.Run.{Result, ok, err}
use tensile_kube.Api.{ApiError, other}

-- `api.AttachIO` of the virtual kubelet.
pub record AttachIo : Type 0 where
  pub stdin : Bool
  pub stdout : Bool
  pub stderr : Bool
  pub tty : Bool

pub record PodExecOptions : Type 0 where
  pub container : String
  pub command : List String
  pub stdin : Bool
  pub stdout : Bool
  pub stderr : Bool
  pub tty : Bool

-- The request that is posted to the pod.
pub record ExecRequest : Type 0 where
  pub namespace : String
  pub name : String
  pub options : PodExecOptions

pub data Closed : Type 0 where
  stdout_closed stderr_closed : Closed

-- The deferred function.
unfoldable pub close_streams : AttachIo → List Closed
close_streams attach =
    (if attach.stdout then stdout_closed ∷ [] else [])
    ++ (if attach.stderr then stderr_closed ∷ [] else [])

module _ {X : Type 0} (new_spdy_executor : ExecRequest → Result ApiError X)
    (stream : X → AttachIo → Option ApiError) where
  -- The error, and the streams that are closed at the end.
  unfoldable pub run_in_container :
      String → String → String → List String → AttachIo → Option ApiError × List Closed
  unfolding close_streams
  run_in_container namespace pod_name container_name cmd attach =
      let request : ExecRequest = record {
        namespace = namespace;
        name = pod_name;
        options = record {
          container = container_name;
          command = cmd;
          stdin = attach.stdin;
          stdout = attach.stdout;
          stderr = attach.stderr;
          tty = attach.tty;
        };
      } in
      (
        elim (new_spdy_executor request) [
          | err e ↦ some (other "could not make remote command")
          | ok exec ↦ stream exec attach
        ],
        close_streams attach,
      )

pub record TerminalSize : Type 0 where
  pub width : ℕ
  pub height : ℕ

-- `Next`: what is received from the channel of sizes; `none` is a closed channel, from which Go receives
-- the zero value. The result is never nil.
unfoldable pub next_size : Option TerminalSize → Option TerminalSize
next_size none = some (record { width = 0; height = 0 })
next_size (some resize) = some (record { width = resize.width; height = resize.height })
