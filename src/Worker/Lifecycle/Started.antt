-- ===== src/Worker/Lifecycle/Started.antt =====
-- What a start that succeeds has done.
use yirang_taskforge.Prelude.{◌≡◌, ◌≢◌, [], Text, bytes, pos, ok}
use yirang_taskforge.Json.{Json}
use yirang_taskforge.World.{
  World, Services, Event, redis_connect, redis_set, redis_put, record_event,
}
use yirang_taskforge.Configurations.{Configurations}
use yirang_taskforge.TaskDlq.{create_dlq}
use yirang_taskforge.Worker.Transfer.Uploads.{Extends}
use yirang_taskforge.Worker.Failure.{dlq_of}
use yirang_taskforge.Worker.Lifecycle.{
  Library, TaskForgeWorker, constructed, begun, with_pool, with_redis, with_clients, thread_workers,
  catalog_document, aws_service,
}

module _ (services : Services) where
  -- The healthcheck that follows a connection.
  abbrev healthcheck : Event
  healthcheck = redis_set (bytes "taskforge:healthcheck") (bytes "ok") (pos 5)

  abbrev connected_at : World → World
  connected_at v = record_event healthcheck (record_event redis_connect v)

  -- From the first world, a moment at which the connection and the write that proves it succeed.
  pub record IsConnected (first last : World) : Type 0 where
    pub moment : World
    pub since : Extends first moment
    pub connected : services.connect moment ≡ ok tt
    pub verified :
        services.set
          (record_event redis_connect moment)
          (bytes "taskforge:healthcheck")
          (bytes "ok")
          (pos 5)
        ≡ ok tt
    pub ends : last ≡ connected_at moment

module _ (json : Json) (services : Services) (config : Configurations) (library : Library) where
  open json use {serialize}

  abbrev document_at : World → Text
  document_at v =
      serialize (catalog_document json config.task_whitelist (services.current_utc_timestamp v))

  abbrev listed_at : World → World
  listed_at v = record_event (redis_put (bytes "task_catalog") (document_at v)) v

  -- What must have been answered, and in which order, for a start to succeed.
  pub record IsStarted (first last : World) (worker : TaskForgeWorker) : Type 0 where
    pub queue : config.sqs_request_queue_url ≢ []
    pub bucket : config.s3_bucket ≢ []
    pub tasks : config.task_whitelist ≢ []
    pub pooled :
        library.pool_start
          (create_dlq services (dlq_of config) first).1
          (thread_workers library config)
        ≡ ok tt
    -- the world after the connection to Redis
    pub online : World
    pub connection : IsConnected services (create_dlq services (dlq_of config) first).1 online
    pub listed : services.put online (bytes "task_catalog") (document_at online) ≡ ok tt
    pub registered :
        library.register_consume_handler (listed_at online) (aws_service library config) ≡ ok tt
    pub consumer : library.consumer_start (listed_at online) (aws_service library config) ≡ ok tt
    pub consuming : library.start_consume (listed_at online) (aws_service library config) ≡ ok tt
    pub monitored : library.pool_push (listed_at online) ≡ ok tt
    pub ends : last ≡ listed_at online
    pub filled : worker ≡ with_clients (with_redis (with_pool (begun config constructed)))
