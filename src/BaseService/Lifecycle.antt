-- ===== src/BaseService/Lifecycle.antt =====
-- What a service of src/infra/Service.cpp owns that has threads.
use datom.Common.{Bool, true, Option}
use datom.Exec.{Exec, returned}

-- The members of a service that own threads. `server` says whether its serve loop runs.
pub record Threads : Type 0 where
  pub io_threadpool : Bool
  pub server : Option Bool
  pub server_thread : Bool

unfoldable pub init_io_threadpool : Exec Threads (Unit {0})
init_io_threadpool s = (returned tt, record s { io_threadpool = true })
