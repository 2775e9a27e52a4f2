-- ===== src/ContainerImage.antt =====
-- crates/container-image-builder/src/lib.rs: images built by a container CLI on the host. The crates
-- `which` and `tempfile` and the process that is run are parameters. The log line is not modelled.
pub mod Outcome
use openshell_image_builder.Base.{
  Bool, true, false, Option, none, some, List, [], ◌∷◌, ◌++◌, if◌then◌else◌, Result, ok, err,
}
use openshell_image_builder.Base.Int.{ℤ}
use openshell_image_builder.Base.Io.{Io, ◌>>=◌, ◌>>◌, lift, with_err, finally}
use openshell_image_builder.Text.{Text, codes}
use openshell_image_builder.FilePath.{FilePath}
use openshell_image_builder.Host.{IoError}
use openshell_image_builder.Host.Temp.{Temp}
use openshell_image_builder.VmImage.Error.{show_int}

pub data ContainerCli : Type 0 where
  podman docker macos_container : ContainerCli

unfoldable pub binary : ContainerCli → Text
binary podman = codes "podman"
binary docker = codes "docker"
binary macos_container = codes "container"

pub data RuntimeNotFoundError : Type 0 where
  runtime_not_found : Text → RuntimeNotFoundError

unfoldable pub not_found_message : RuntimeNotFoundError → Text
not_found_message (runtime_not_found name) =
    codes "'" ++ (name ++ codes "' not found in PATH — install it or choose a different --runtime")

-- `which` says whether a program of this name is in the search path.
unfoldable pub check_in_path :
    {S : Type 0} → (S → Text → Bool) → ContainerCli → S → Result RuntimeNotFoundError (Unit {0})
check_in_path which cli s =
    if which s (binary cli) then ok tt else err (runtime_not_found (binary cli))

-- `std::process::ExitStatus` and `Command`
pub record ExitStatus : Type 0 where
  pub success : Bool
  pub code : Option ℤ

pub record Command : Type 0 where
  pub program : Text
  pub args : List Text

pub data BuildError : Type 0 where
  io : IoError → BuildError
  failed : Option ℤ → BuildError

unfoldable pub display : BuildError → Text
unfolding show_int
display (io e) = codes "I/O error: " ++ e.message
display (failed (some code)) = codes "container build failed with exit code " ++ show_int code
display (failed none) = codes "container build was terminated by a signal"

-- `Error::source`
unfoldable pub source : BuildError → Option IoError
source (io e) = some e
source (failed code) = none

-- The trait `Runner`, over the state of the host.
pub record Runner (S : Type 0) : Type 0 where
  pub run : Command → Io S IoError ExitStatus

-- `ContainerRunner`, with `Command::status` given.
unfoldable pub container_runner : {S : Type 0} → (Command → Io S IoError ExitStatus) → Runner S
container_runner status = record { run = status }

unfoldable pub of_status : ExitStatus → Result BuildError (Unit {0})
of_status status = if status.success then ok tt else err (failed status.code)

unfoldable pub command : ContainerCli → FilePath → Text → FilePath → Command
command cli file tag context_dir = record {
  program = binary cli;
  args = codes "build" ∷ codes "-f" ∷ file ∷ codes "-t" ∷ tag ∷ context_dir ∷ [];
}

module _ {S : Type 0} (temp : Temp S) where
  -- What `build` does while it owns the temporary file.
  unfoldable pub build_from :
      temp.TempFile → Text → Text → ContainerCli → Runner S → FilePath → Io S BuildError (Unit {0})
  build_from file containerfile tag cli runner context_dir = do
    with_err io (temp.write_all file containerfile)
    status ← with_err io (runner.run (command cli (temp.file_path file) tag context_dir))
    lift (of_status status)

  unfoldable pub build :
      Text → Text → ContainerCli → Runner S → FilePath → Io S BuildError (Unit {0})
  build containerfile tag cli runner context_dir = do
    tmpfile ← with_err io temp.new_file
    finally (build_from tmpfile containerfile tag cli runner context_dir) (temp.drop_file tmpfile)
