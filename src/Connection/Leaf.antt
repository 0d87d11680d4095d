-- ===== src/Connection/Leaf.antt =====
-- connections/http.py, s3.py, ssh.py: the connections that hold one native client.
pub mod Http
pub mod S3
pub mod Ssh
mod Acquiring
mod Ends
mod SshEnds
mod Contracts
unfoldable pub use Http.{http_connection}
pub use S3.{S3Config, Envelope}
unfoldable pub use S3.{s3_connection}
pub use Ssh.{SshConfig}
unfoldable pub use Ssh.{ssh_connection}
pub use Contracts.*
pub use Ends.{leaf_stance}
