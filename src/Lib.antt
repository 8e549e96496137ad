-- ===== src/Lib.antt =====
-- A model of jotify, a service that takes notifications of businesses, spends their quotas,
-- stores them in sharded databases and sends them over channels, with theorems on its
-- operations.
--
-- How the parts meet. A request becomes a notification (Domain.FromApi, Domain.Validate), which
-- gets a send window (Domain.Window). The repository (Repo) spends a unit of the quota of its
-- business and channel (Quota), hands the notification to the DAO (Dao) and gives the unit back
-- where that fails. The DAO finds the database and the table (Sharding) and makes the id
-- (Snowflake), which carries the hash that leads back to them. A service (Send) validates a
-- notification, chooses a strategy for it and asks the providers of its channel in turn. The
-- sender (Sender) marks how the send ended and tells the business by a callback (Callback),
-- whose logs it keeps in the database. A scheduler (Scheduler) sends what is ready, in batches
-- whose size an adjuster (Batch) moves and until the ring of error events (BitRing) triggers;
-- jobs (Job) run it for the tables that they get the locks of. A provider of short messages
-- (Sms) renders a template (Templates) and asks the client of its cloud. Requests are admitted
-- by their token (Jwt) and repeated ones are told by their keys (Idempotent). Clients find a
-- service in the registry (Registry) by a resolver (Resolver), which hands its instances to a
-- balancer (Balancer).
--
-- Which file models which code (internal/ of the repository):
--   BitRing       pkg/bitring/bitring.go: Add is `add`, ThresholdTriggering `threshold_triggering`
--   RingBuffer    pkg/ringbuffer/ringbuffer.go (pkg/buffer has a copy): Add, Avg, Reset
--   Batch.Fixed, Batch.SlideWindow  pkg/batch/fixed and pkg/batch/slidewindow: Adjust, NewAdjuster
--   Snowflake     pkg/snowflake/id_generator.go: NextId is `next_id`, Extract* are `extract_*`
--   Sharding      pkg/sharding/hash_sharding.go: Shard, ShardWithId, BroadCast
--   Errs          errs/error.go, and results that carry an error
--   Domain.Notification  domain/notification.go and domain/notification_send.go: Validate,
--                 CalcTimeWindow, SetSendTime, ReplaceAsyncImmediate
--   Domain.FromApi       NotificationFromApi of domain/notification.go
--   Domain.Template      domain/template.go and domain/provider.go
--   Quota         repository/cache/redis/quota.go with its Lua scripts
--   Repo          repository/notification.go: the operations that change state, and the
--                 translation from and to the entities
--   Dao           repository/dao/notification.go: create, GetById, GetByKey, MarkSuccess,
--                 MarkFailure and CompareAndSwapStatus; Dao.Create has batchCreate, Dao.Group
--                 BatchUpdateStatus and Dao.Ids GetMapByIds
--   Send          service/provider/selector/sequential.go and service/channel/sms.go; Send.Strategy
--                 has service/sendstrategy (Send), Send.Service Send and AsyncSend of
--                 service/notification/notification_send.go, Send.Batch the operations on batches
--                 of both
--   Sender        service/sender/sender.go: Send and BatchSend; Sender.Quota puts the repository in
--   Callback      service/notification/callback/callback.go: Send is `send`, whose loop is
--                 `send_loop`, SendByNotification and SendByNotifications; Callback.Log is
--                 repository/callback_log.go and Dao.Logs repository/dao/callback_log.go
--   Retry         pkg/retry/retry.go: NewRetryStrategy
--   Tx            domain/notification_tx.go: SetSendTime, SetNextCheckAtAndStatus
--   BizConf       repository/biz_conf.go, and in BizConf.Caches the caches of repository/cache
--   Scheduler     service/schedule/sharding/sharding_scheduler.go: loop and batchSend
--   Job           pkg/job/resource.go and pkg/job/sharding_loop_job.go: the semaphore, the steps of
--                 Run and tableLoop, and bizLoop
--   Balancer      pkg/client/balancer/weight_balancer.go and dynamic_weight_balancer.go; its child
--                 modules have round_robin_, random_, weight_random_, rw_weight_ and
--                 consistent_hash_balancer.go, and Balancer.Attributes the attributes of
--                 pkg/client/types.go that they read
--   Registry      pkg/registry/etcd/etcd_registry.go: Register, UnRegister, ListService, Close;
--                 Registry.Watch has the rounds of Subscribe
--   Resolver      pkg/client/resolver/grpc_resolver.go: resolve, watch and Build
--   Templates     repository/template.go and repository/provider.go with their DAOs
--   Sms           service/provider/sms/sms_provider.go: Send; Sms.Tencent client/tencent.go below it
--   Jwt           api/grpc/interceptor/jwt/jwt_interceptor.go: Intercept, Decode, Encode
--   Idempotent    pkg/idempotent/redis/redis_idempotent.go: Exists, MultiExists
--   Prelude       helpers: numbers, words of 32 and 64 bits, bits, integers, lists and texts
--
-- State is passed from call to call. A mutex of Go makes the operation under it one step; the
-- goroutines of batchCreate, BatchUpdateStatus, GetMapByIds, BatchSend and BatchAsyncSend are
-- run one after the other, those of a job's tables as steps that interleave. A uint64 is a
-- number below 2 ^ 64 with its sums reduced, an int64 or a time.Time an integer; `format_uint`
-- has the 20 digits that the largest uint64 needs, and the loop over the providers gets a round
-- for each of them and one more: every round moves the selector on, and the round past the last
-- provider ends. The loops of Callback, Scheduler and Job take their number of rounds as an
-- argument and answer `running` where it is used up; those of batchCreate take the times of
-- their rounds for it; the theorems on them say what is enough, or that none is. Go's maps are
-- lists of their entries.
--
-- What is not under internal/ is a parameter: xxhash (`sum64`), sort.Slice (`sort`, with the
-- laws `Sorts`), float64 (`Float64`), redis (`Redis`, with the laws `IsRedis`, and `Reply` for
-- calls that fail), gorm (`Gorm`, with the laws `Stores` and `Reads` and the calls `Execs`,
-- `Finds` and `Inserts`), encoding/json (`Json`), the database of the callback logs (`LogDb`),
-- the strategies of easy-kit (`Strategies`, with the law `Waits`), the clients of other services
-- (`Callback.Calls`), go-cache and the texts in redis (`Gc`, `RedisTexts`), etcd (`Etcd`), the
-- attributes and connections of gRPC (`Attributes`, `ClientConn`), the rows of templates
-- (`Rows`), the SDK of Tencent (`Sdk`), golang-jwt (`Lib`) and the pipelines of redis
-- (`Idempotent.Redis`). The answers of rand and of the distributed lock, and the time, are
-- arguments.
--
-- Not modelled: pkg/isolation and pkg/xsql, which only choose a connection pool or call
-- encoding/json; the client cache of pkg/grpc; pkg/buffer, a copy of pkg/ringbuffer. The wiring
-- in ioc and cmd has no logic of its own, api/grpc/server.go only generated stubs, and
-- CreateTemplate of the Tencent client panics as not implemented.
pub mod Prelude
pub mod Errs
pub mod BitRing
pub mod RingBuffer
pub mod Batch
pub mod Snowflake
pub mod Sharding
pub mod Balancer
pub mod Domain
pub mod Quota
pub mod Repo
pub mod Dao
pub mod Send
pub mod Job
pub mod Sender
pub mod Jwt
pub mod Retry
pub mod Tx
pub mod Sms
pub mod Resolver
pub mod BizConf
pub mod Callback
pub mod Scheduler
pub mod Templates
pub mod Registry
pub mod Idempotent
