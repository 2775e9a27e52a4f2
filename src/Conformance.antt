-- ===== src/Conformance.antt =====
-- The unit tests of the repository, run on the model: a test is the conjunction of its assertions, and
-- an `unwrap` that would panic makes it false. Where a test takes a file system, a temporary directory
-- or a runner, the model's test runs on the ones of Conformance.World.
mod Asserts
mod Addresses
mod Containerfile
mod Dns
mod World
mod ContainerImage
mod VmCheck
mod VmBuild
mod VmErrors
mod VmRootfs
mod Program
mod Runs
mod Configured
mod Selection
