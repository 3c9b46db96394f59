-- ===== src/Cli/Retry/Reset.antt =====
-- What `durex retry` does to the stored commands, on every branch.
use durex.Status.{Status}
use durex.Instance.{Instance}
use durex.Storage.{Storage}
