-- ===== src/Lib.antt =====
-- A verification library for dskit, the building blocks of distributed services in Go: the hash
-- ring, its gossip merge, its lookups and what stands on them.
--
-- How the parts interact. Instances register themselves in the ring (Desc, ring/model.go), a map
-- from instance ID to address, state, zone, heartbeat and tokens, which the replicas of a gossip
-- cluster exchange and merge. Each process keeps a copy of it (Ring, ring/ring.go) with its
-- tokens sorted. For a key, Get finds the token behind it by binary search (ring/util.go) and
-- walks on from there to collect distinct instances, which a replication strategy
-- (ring/replication_strategy.go) reduces to the healthy ones with the number of failures allowed;
-- a read of everything asks GetReplicationSetForOperation. The processes run these parts as
-- services (services/basic_service.go), whose three functions a goroutine calls in turn while
-- other goroutines start, stop and await them. A Lifecycler (ring/lifecycler.go) or a
-- BasicLifecycler keeps the entry of one process in the ring by CAS on a key-value store (kv): it
-- registers, heartbeats, picks and verifies tokens, and leaves. A Manager (services/manager.go)
-- watches the states of a group of services, and the modules of an application
-- (modules/modules.go) start after those that they depend on. DoBatch (ring/batch.go) sends the
-- items of a batch to the instances that Get gives for their keys. The gossip store (KV,
-- kv/memberlist) keeps a value for each key, such as a ring, with a version of its own; it merges
-- what CAS and other processes bring, wakes the watchers of the key, and broadcasts the change.
--
-- Files.
--   Base            shared names; Base/Lists, Base/Maps (Go maps), Base/Sort, Base/Tests, Base/Texts
--   Ring/Types      InstanceState, InstanceDesc and Desc of ring/ring.pb.go
--   Ring/Desc       the operations of Desc in ring/model.go
--   Ring/Operation  NewOp and the bit tests of Operation in ring/ring.go
--   Ring/Conflicts  conflictingTokensExist and resolveConflicts of ring/model.go
--   Ring/Merge      normalizeIngestersMap and mergeWithTime of ring/model.go
--   Ring/Search     searchToken of ring/util.go, with the loop of sort.Search
--   Ring/State      Ring, ReplicationSet and the errors of ring/ring.go
--   Ring/Strategy   the two replication strategies of ring/replication_strategy.go
--   Ring/Get        Ring.Get
--   Ring/ReadAll    GetAllHealthy, GetReplicationSetForOperation, GetInstanceState, HasInstance
--   Ring/Do         ReplicationSet.Do and its trackers, ring/replication_set.go and
--                   ring/replication_set_tracker.go
--   Ring/Compare    RingCompare of ring/model.go
--   Ring/Update     GetTokens, getTokensByZone, getTokensInfo, MergeTokens of ring/model.go, getZones of
--                   ring/util.go and updateRingState of ring/ring.go
--   Ring/Changes    HasReplicationSetChanged of ring/replication_set.go
--   Services/Basic  services/service.go and services/basic_service.go: BasicService
--   Services/Manager services/manager.go: Manager, with the relation Reach of the notices of its
--                   services and of new listeners
--   Ring/Batch      ring/batch.go: the calls that DoBatch makes (Plan) and its trackers (Counts, Outcome)
--   Ring/Tokens     GenerateTokens of ring/util.go, Tokens of ring/tokens.go
--   Ring/Wait       WaitInstanceState and waitStability of ring/util.go
--   Ring/Lifecycler ring/lifecycler.go: its state and initRing; its children have the other callbacks
--                   (Callbacks), CheckReady (Ready), loop and stopping (Loop)
--   Ring/BasicLifecycler  ring/basic_lifecycler.go; its children have starting, running and stopping
--                   (Phases) and ring/basic_lifecycler_delegates.go (Delegates)
--   Kv              CAS as kv/client.go promises it; Kv/Prefix has kv/prefix.go
--   Kv/Consul       the CAS loop of kv/consul/client.go over the store of kv/consul/mock.go; its child
--                   Watch has the watches and the plain requests
--   Ring/Shard      ShuffleShard, ShuffleShardWithLookback, the cache of subrings and countTokens of
--                   ring/ring.go, with the numbers of ring/shard/shard.go
--   Backoff         backoff/backoff.go
--   Memberlist/Interface  Mergeable of kv/memberlist/mergeable.go, with its idempotency
--   Memberlist/Broadcast  ringBroadcast of kv/memberlist/broadcast.go
--   Memberlist/Store      the store of KV in kv/memberlist/memberlist_client.go: get, List,
--                         mergeValueForKey, trySingleCas
--   Memberlist/Messages   the buffers of messages of KV
--   Memberlist/Watchers   the watchers of KV
--   Memberlist/Wire       the frames of LocalState and MergeRemoteState
--   Memberlist/Client     KV: NotifyMsg, LocalState, MergeRemoteState, broadcastNewValue; its child
--                         Cas has CAS, and RingValue the ring as a value of the store
--   Modules         modules/modules.go: modules and the order of their dependencies (Ordered, Ends,
--                   Dependencies)
--   */Examples      the theorems at concrete inputs, and tests
--
-- How state corresponds. A Go map is an association list in the order in which a `range` loop visits
-- it; IsMap says that its keys are distinct. A theorem for every such list holds for every order that
-- a loop may take. A missing key reads as the zero value where the code does so (instance_at).
-- Strings compare by their bytes. Times and durations are natural numbers: Unix times in seconds, the
-- current time and the limits in nanoseconds; a time of registration is a ℤ, since Go's zero time lies before
-- 1970. A token is a natural
-- number: the code only compares tokens. The heap of MergeTokens is a list in the order of its
-- roots; its loop runs on the number of tokens. updateRingState sorts the tokens of the ring that it
-- stores, since the sorted slices are its own. sort.Sort is an insertion sort and sort.Search its own loop.
-- Fuel: the loop of sort.Search runs on the length of its interval, which each round makes shorter;
-- the loop of Get runs on the number of tokens, the bound that the code itself counts up to.
--
-- A BasicService runs as the steps of a relation: the program counter of `main`, whose calls of the
-- three functions return any results, and between any two of its steps the calls from outside and the
-- cancellation of the parent's context. StopAsync is two steps, since its first test reads the state on
-- its own. Closing a channel counts, so that closing it twice would show; what listeners are told is a
-- list. The delivery of a notice by a listener's goroutine is not modelled.
--
-- The pseudo-random numbers of a shard, which the code seeds by a hash of the identifier and the zone, are
-- a parameter. A subring in the cache is a value: that those who hold it see its updates is left out.
--
-- A Manager sees its services as numbers, each of which changes its state forward. The goroutines of
-- DoBatch are the steps of a relation, one for each atomic operation: those that are past the first of the
-- two operations of `record` are counted, so that others run between the two.
--
-- KV is a record of its maps, buffers and flags, and what it hands to the queue of the memberlist
-- library is a list in order. Codecs of values and the generated encoding of KeyValuePair are
-- parameters; a theorem that reads back what was written supposes that a marshalled pair is unmarshalled
-- to itself. Values are not shared: a clone is the value, and Merge in place is an insert of the result.
-- What other goroutines do while the function of a CAS runs is a parameter of each attempt.
-- MergeRemoteState runs on the length of the data as fuel, since each pair takes four bytes at least.
--
-- listDeps runs on fuel for its depth, and the loop of orderedDeps on the number of its passes, for both
-- of which the rank of a module among those that it depends on, and one more, is enough; a map gives its
-- names in an order of its own in each pass.
--
-- Integers. A counter that only grows is a natural number; one that is decremented is a ℤ. In
-- ReplicationSet.Do the number of successes needed may stop at 0 where the code's is negative, since
-- both are met at once. The delays of a Backoff are the 64-bit patterns of int64, with its wrap-around;
-- rand.Int63n is a parameter, of which the theorems suppose that it returns a number below its argument.
--
-- A lifecycler changes its entry of the ring by CAS of a Client. Kv states what that interface promises: the
-- callback runs any number of times on values that are not swapped, each of which changes the variables of
-- the caller, and the last time on the value that it replaces. The operations of the two lifecyclers are
-- functions of such a run, of the ring and of their own state; every other writer of the ring is an
-- event of their loops. A call of a callback reads the clock once, and GenerateTokens draws from a list; an
-- operation that is `none` is still drawing. The CAS loop of the Consul client runs on its retries, over a
-- store whose index of 64 bits wraps around; that others delete the key, or reset its index, is left out
-- of what may happen between its requests.
--
-- What is not modelled. The multi client and the client of etcd, the runtime configuration and the
-- rate limiter; the network transport, and the start, join and stop of a
-- memberlist cluster, which are calls of its library; StartAsync and StopAsync of a Manager, which
-- call the services in turn, and initModule with the services that it wraps. Each method of the ring
-- is one atomic step: the locks are left out. Metrics, logging and the texts of errors are left out;
-- the numbers that the texts give are kept. A nil Desc is not a state of the model.
pub mod Base
pub mod Ring
pub mod Backoff
pub mod Kv
pub mod Memberlist
pub mod Modules
pub mod Services
