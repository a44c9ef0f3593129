-- ===== src/Lib.antt =====
-- A verification library for datom, a block store that keeps volumes on primary-backup groups. It
-- models the C++ of src/ (paths below are from the root of the repository).
--
-- The parts, and how they interact. The configuration service (src/configservice/ConfigService.cpp)
-- groups services into rings of three and places volumes on them. A service holds a replica of each
-- volume of its rings; the replicas of a volume are a primary-backup group. The members of a group
-- (src/infra/PBMember.cpp) elect a leader through a lock in the coordination service and by asking
-- each other for their commit ids. The leader journals a write (src/infra/Journal.cpp), stores it
-- in its database (src/volumeserver/VolumeMetaDb.cpp) and sends it to its peers; a follower that
-- joins pulls the journal and replays it (src/volumeserver/VolumeServer.cpp). Services find each
-- other through a cache of connections (src/infra/ConnectionCache.cpp). They exchange typed
-- buffers, which a table of handlers dispatches (src/infra/Service.cpp,
-- src/infra/MessageUtils.tcc), and reach ZooKeeper and Kafka through a coordination client
-- (src/infra/ZooKafkaClient.cpp, src/infra/KafkaClient.cpp); a service that starts checks its entry
-- there and announces itself.
--
-- The files. Common holds shared names, tests, lists and integers; Status the status codes and
-- exceptions; Exec the outcome of a handler (returned, thrown, or aborted by a failed CHECK or
-- DCHECK) beside the state it leaves. Journal is the commit journal. Member is a member of a group:
-- Member.Peers is getPeerRef_, getWritablePeers_ and changePeerState_; Member.Write is
-- writeToPeers; Member.Group is hasLock_, parseMembers_, canIBeElector_ and hasQuorumMemberCount_;
-- Member.Election is handleGroupWatchEvent, issueElectionRequest_, handleElectionResponse and what
-- follows them; Member.Messages is the handlers of messages; Member.Loop is the events of a member
-- in any order, Member.Watch its watch on the group, and Member.Cluster the members together with the
-- node of their lock. Volume.MetaDb is the keys, batches and scans of the database; Volume.Replica is
-- groupWriteInEb_, handleMetadataWrite, updateBlobMeta and the sync protocol. Config.Sphere is
-- PBResourceSphereConfigMgr with PBVolumeConfigMgr, and Config.Service is DatasphereConfigMgr with
-- ConfigService, with ConfigApiHandler in Config.Service.Api. Connections is ConnectionItem and
-- ConnectionCache, Connections.Topic the buffers that feed it, Connections.Directory what it is
-- compared with, and Resources the resource manager of a service (src/infra/PBResourceMgr.tcc).
-- Buffers is KVBuffer with its properties and payloads (src/infra/gen-ext/KVBuffer_ext.tcc),
-- Dispatch the table of handlers, KVBHandler and sendKVBMessage, and Volume.Server the handlers of
-- a volume server on its replicas. ZooKafka is the calls of the coordination client,
-- ZooKafka.Ancestors the paths of createIncludingAncestors and ZooKafka.Connect the connection
-- loop; Kafka is KafkaClient, with its init and destructor in Kafka.Lifetime. BaseService is the
-- interface of src/infra/CoordinationClient.h, Service::init and ConfigService::init, and
-- BaseService.Lifecycle is the thread pool of a service; BaseService.Client and
-- Config.Service.Stored put ZooKafka under the services. The modules below those hold proofs, and
-- Examples the concrete states on which theorems are applied.
--
-- How state and operations correspond. An object is a record with the fields of the class under
-- their names in snake case; a method is a function of its name that passes the record on. A `then`
-- that waits for another process is a function of its own, run on the state at the time the answer
-- comes, and answers come in any order; what a member sends is a list in its record. A call of the
-- coordination client is answered at once: it is one step from the tree to the result. Loops are
-- structural recursion, but for two of ZooKafka.Connect that run on fuel: the wait for a
-- connection, for which half the seconds and two more rounds are enough (four for the five seconds
-- of init), and init itself, which tries again without a bound and needs a round for each handle
-- that it opens.
--
-- Not modelled: RocksDB, ZooKeeper, Kafka and folly, which are parameters (a record of operations)
-- where the code relies on their results; JSON and Thrift texts; sockets, threads and locks, since
-- each object runs its handlers on one event base; the overflow of counters that are only
-- incremented by one; watch callbacks other than that on the group, the settings of librdkafka that
-- are not checked, Thrift servers with Service::run and Service::shutdown, whose effect rests on
-- when their threads run, the properties cache, the command line and the tests.
pub mod Common
pub mod BaseService
pub mod Buffers
pub mod Status
pub mod Examples
pub mod Dispatch
pub mod Exec
pub mod Journal
pub mod Config
pub mod Connections
pub mod Kafka
pub mod Member
pub mod Resources
pub mod Volume
pub mod ZooKafka
