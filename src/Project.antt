-- ===== src/Project.antt =====
-- bridge/internal/project: the installation project. `Download` fetches the archive in chunks,
-- `Archive` takes the two files out of it, `Reader` reads the channels of the first and `Tools` the
-- actions of the second, `Labels` reads the channels' labels, `Builder` builds the project, in the
-- `Order` of labels, and `Parse` joins these.
pub mod Errors
pub mod Download
pub mod Archive
pub mod Labels
pub mod Order
pub mod Builder
pub mod Reader
pub mod Tools
pub mod Parse
pub mod Motors
pub mod Channels
pub mod Actions
