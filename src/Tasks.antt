-- ===== src/Tasks.antt =====
-- The background tasks that the routes start with `asyncio.create_task`.
use jackdaw.Base.{String}
use jackdaw.Jws.Keys.{Bytes}

pub data Task : Type 0 where
  -- `worker.run_challenge(authz_id, order_id)`
  challenge : (authz_id order_id : String) → Task
  -- `worker.process_finalize(order_id, domain, csr_der, le_client)`
  finalize : (order_id domain : String) (csr_der : Bytes) → Task
