-- ===== src/Commands/Tables.antt =====
-- The command tables of `command_core.py` and `protocol_retry.py`, and the opcodes of
-- `protocol_constants.py`, entry by entry.
use Prim.Native.String.{String}
use ferricstore_python.Base.{ℕ, List, [], ◌∷◌}

abbrev pub control_commands : List String
control_commands =
    "AUTH" ∷ "BACKPRESSURE" ∷ "CLIENT" ∷ "CLIENT.INFO" ∷ "CLIENT.SETNAME" ∷ "COMMAND" ∷ "DBSIZE"
    ∷ "DISCARD" ∷ "ECHO" ∷ "EXEC" ∷ "FLUSHALL" ∷ "FLUSHDB" ∷ "HELLO" ∷ "INFO" ∷ "KEYS" ∷ "LATENCY"
    ∷ "MULTI" ∷ "OPTIONS" ∷ "PING" ∷ "PSUBSCRIBE" ∷ "PUBSUB" ∷ "PUBLISH" ∷ "PUNSUBSCRIBE" ∷ "QUIT"
    ∷ "RANDOMKEY" ∷ "ROUTE" ∷ "ROUTE_BATCH" ∷ "SCAN" ∷ "SELECT" ∷ "SHARDS" ∷ "SLOWLOG" ∷ "SPUBLISH"
    ∷ "SSUBSCRIBE" ∷ "STARTUP" ∷ "SUBSCRIBE" ∷ "SUNSUBSCRIBE" ∷ "TIME" ∷ "UNSUBSCRIBE" ∷ "UNWATCH"
    ∷ "WINDOW_UPDATE" ∷ []

abbrev pub all_keys_commands : List String
all_keys_commands =
    "DEL" ∷ "EXISTS" ∷ "MGET" ∷ "PFCOUNT" ∷ "PFMERGE" ∷ "SDIFF" ∷ "SDIFFSTORE" ∷ "SINTER"
    ∷ "SINTERSTORE" ∷ "SUNION" ∷ "SUNIONSTORE" ∷ "TOUCH" ∷ "UNLINK" ∷ "WATCH" ∷ []

abbrev pub pair_keys_commands : List String
pair_keys_commands = "MSET" ∷ "MSETNX" ∷ []

abbrev pub counted_keys_commands : List String
counted_keys_commands =
    "BLMPOP" ∷ "BZMPOP" ∷ "LMPOP" ∷ "SINTERCARD" ∷ "ZDIFF" ∷ "ZINTER" ∷ "ZINTERCARD" ∷ "ZMPOP"
    ∷ "ZUNION" ∷ []

abbrev pub destination_counted_keys_commands : List String
destination_counted_keys_commands =
    "CMS.MERGE" ∷ "TDIGEST.MERGE" ∷ "ZDIFFSTORE" ∷ "ZINTERSTORE" ∷ "ZUNIONSTORE" ∷ []

abbrev pub two_keys_commands : List String
two_keys_commands =
    "BLMOVE" ∷ "COPY" ∷ "GEOSEARCHSTORE" ∷ "LCS" ∷ "LMOVE" ∷ "RENAME" ∷ "RENAMENX" ∷ "RPOPLPUSH"
    ∷ "SMOVE" ∷ "ZRANGESTORE" ∷ []

abbrev pub first_key_commands : List String
first_key_commands =
    "APPEND" ∷ "BF.ADD" ∷ "BF.CARD" ∷ "BF.EXISTS" ∷ "BF.INFO" ∷ "BF.INSERT" ∷ "BF.MADD"
    ∷ "BF.MEXISTS" ∷ "BF.RESERVE" ∷ "BITCOUNT" ∷ "BITFIELD" ∷ "BITFIELD_RO" ∷ "BITPOS" ∷ "CF.ADD"
    ∷ "CF.ADDNX" ∷ "CF.COUNT" ∷ "CF.DEL" ∷ "CF.EXISTS" ∷ "CF.INFO" ∷ "CF.INSERT" ∷ "CF.INSERTNX"
    ∷ "CF.MEXISTS" ∷ "CF.RESERVE" ∷ "CMS.INCRBY" ∷ "CMS.INFO" ∷ "CMS.INITBYDIM" ∷ "CMS.INITBYPROB"
    ∷ "CMS.QUERY" ∷ "DECR" ∷ "DECRBY" ∷ "EXPIRE" ∷ "EXPIREAT" ∷ "EXPIRETIME" ∷ "GEOADD" ∷ "GEODIST"
    ∷ "GEOHASH" ∷ "GEOPOS" ∷ "GEOSEARCH" ∷ "GET" ∷ "GETBIT" ∷ "GETDEL" ∷ "GETEX" ∷ "GETRANGE"
    ∷ "GETSET" ∷ "HDEL" ∷ "HEXISTS" ∷ "HEXPIRE" ∷ "HEXPIREAT" ∷ "HEXPIRETIME" ∷ "HGET" ∷ "HGETALL"
    ∷ "HGETDEL" ∷ "HGETEX" ∷ "HINCRBY" ∷ "HINCRBYFLOAT" ∷ "HKEYS" ∷ "HLEN" ∷ "HMGET" ∷ "HMSET"
    ∷ "HPERSIST" ∷ "HPEXPIRE" ∷ "HPEXPIREAT" ∷ "HPEXPIRETIME" ∷ "HPTTL" ∷ "HRANDFIELD" ∷ "HSCAN"
    ∷ "HSET" ∷ "HSETEX" ∷ "HSETNX" ∷ "HSTRLEN" ∷ "HTTL" ∷ "HVALS" ∷ "INCR" ∷ "INCRBY"
    ∷ "INCRBYFLOAT" ∷ "LINDEX" ∷ "LINSERT" ∷ "LLEN" ∷ "LPOP" ∷ "LPOS" ∷ "LPUSH" ∷ "LPUSHX"
    ∷ "LRANGE" ∷ "LREM" ∷ "LSET" ∷ "LTRIM" ∷ "PERSIST" ∷ "PEXPIRE" ∷ "PEXPIREAT" ∷ "PEXPIRETIME"
    ∷ "PFADD" ∷ "PSETEX" ∷ "PTTL" ∷ "RPOP" ∷ "RPUSH" ∷ "RPUSHX" ∷ "SADD" ∷ "SCARD" ∷ "SET"
    ∷ "SETBIT" ∷ "SETEX" ∷ "SETNX" ∷ "SETRANGE" ∷ "SISMEMBER" ∷ "SMEMBERS" ∷ "SMISMEMBER"
    ∷ "SORT_RO" ∷ "SPOP" ∷ "SRANDMEMBER" ∷ "SREM" ∷ "SSCAN" ∷ "STRLEN" ∷ "TDIGEST.ADD"
    ∷ "TDIGEST.BYRANK" ∷ "TDIGEST.BYREVRANK" ∷ "TDIGEST.CDF" ∷ "TDIGEST.CREATE" ∷ "TDIGEST.INFO"
    ∷ "TDIGEST.MAX" ∷ "TDIGEST.MIN" ∷ "TDIGEST.QUANTILE" ∷ "TDIGEST.RANK" ∷ "TDIGEST.RESET"
    ∷ "TDIGEST.REVRANK" ∷ "TDIGEST.TRIMMED_MEAN" ∷ "TOPK.ADD" ∷ "TOPK.COUNT" ∷ "TOPK.INCRBY"
    ∷ "TOPK.INFO" ∷ "TOPK.LIST" ∷ "TOPK.QUERY" ∷ "TOPK.RESERVE" ∷ "TTL" ∷ "TYPE" ∷ "XACK" ∷ "XADD"
    ∷ "XAUTOCLAIM" ∷ "XCLAIM" ∷ "XDEL" ∷ "XLEN" ∷ "XPENDING" ∷ "XRANGE" ∷ "XREVRANGE" ∷ "XSETID"
    ∷ "XTRIM" ∷ "ZADD" ∷ "ZCARD" ∷ "ZCOUNT" ∷ "ZINCRBY" ∷ "ZLEXCOUNT" ∷ "ZMSCORE" ∷ "ZPOPMAX"
    ∷ "ZPOPMIN" ∷ "ZRANDMEMBER" ∷ "ZRANGE" ∷ "ZRANGEBYLEX" ∷ "ZRANGEBYSCORE" ∷ "ZRANK" ∷ "ZREM"
    ∷ "ZREMRANGEBYLEX" ∷ "ZREMRANGEBYRANK" ∷ "ZREMRANGEBYSCORE" ∷ "ZREVRANGE" ∷ "ZREVRANGEBYLEX"
    ∷ "ZREVRANGEBYSCORE" ∷ "ZREVRANK" ∷ "ZSCAN" ∷ "ZSCORE" ∷ []

abbrev pub non_mutating_commands : List String
non_mutating_commands =
    "AUTH" ∷ "BACKPRESSURE" ∷ "CLIENT.INFO" ∷ "CLIENT.SETNAME" ∷ "CLUSTER.FEATURES"
    ∷ "CLUSTER.HEALTH" ∷ "CLUSTER.KEYSLOT" ∷ "CLUSTER.ROLE" ∷ "CLUSTER.SLOTS" ∷ "CLUSTER.STATS"
    ∷ "CLUSTER.STATUS" ∷ "FERRICSTORE.HOTNESS" ∷ "FERRICSTORE.KEY_INFO" ∷ "FERRICSTORE.METRICS"
    ∷ "FLOW.APPROVAL.GET" ∷ "FLOW.APPROVAL.LIST" ∷ "FLOW.ATTRIBUTE_VALUES" ∷ "FLOW.ATTRIBUTES"
    ∷ "FLOW.BUDGET.GET" ∷ "FLOW.BUDGET.LIST" ∷ "FLOW.CIRCUIT.GET" ∷ "FLOW.EFFECT.GET" ∷ "FLOW.GET"
    ∷ "FLOW.GOVERNANCE.LEDGER" ∷ "FLOW.GOVERNANCE.OVERVIEW" ∷ "FLOW.HISTORY" ∷ "FLOW.INFO"
    ∷ "FLOW.LIMIT.GET" ∷ "FLOW.LIMIT.LIST" ∷ "FLOW.POLICY.GET" ∷ "FLOW.QUERY.INDEXES"
    ∷ "FLOW.SCHEDULE.GET" ∷ "FLOW.SCHEDULE.LIST" ∷ "FLOW.QUERY" ∷ "FLOW.STATS" ∷ "FLOW.VALUE.MGET"
    ∷ "GET" ∷ "HELLO" ∷ "HGET" ∷ "HGETALL" ∷ "HMGET" ∷ "LRANGE" ∷ "MGET" ∷ "OPTIONS" ∷ "PING"
    ∷ "QUIT" ∷ "ROUTE" ∷ "SHARDS" ∷ "SISMEMBER" ∷ "SMEMBERS" ∷ "STARTUP" ∷ "SUBSCRIBE_EVENTS"
    ∷ "UNSUBSCRIBE_EVENTS" ∷ "WINDOW_UPDATE" ∷ "ZRANGE" ∷ "ZSCORE" ∷ []

abbrev pub opcodes : List (String × ℕ)
opcodes =
    ("HELLO", 1)
    ∷ ("AUTH", 2)
    ∷ ("PING", 3)
    ∷ ("CLIENT.SETNAME", 4)
    ∷ ("CLIENT.INFO", 5)
    ∷ ("ROUTE", 6)
    ∷ ("SHARDS", 7)
    ∷ ("BACKPRESSURE", 8)
    ∷ ("QUIT", 9)
    ∷ ("GOAWAY", 10)
    ∷ ("OPTIONS", 11)
    ∷ ("STARTUP", 12)
    ∷ ("WINDOW_UPDATE", 13)
    ∷ ("PIPELINE", 14)
    ∷ ("ROUTE_BATCH", 15)
    ∷ ("EVENT", 16)
    ∷ ("SUBSCRIBE_EVENTS", 17)
    ∷ ("UNSUBSCRIBE_EVENTS", 18)
    ∷ ("COMMAND_EXEC", 256)
    ∷ ("GET", 257)
    ∷ ("SET", 258)
    ∷ ("DEL", 259)
    ∷ ("MGET", 260)
    ∷ ("MSET", 261)
    ∷ ("CAS", 262)
    ∷ ("LOCK", 263)
    ∷ ("UNLOCK", 264)
    ∷ ("EXTEND", 265)
    ∷ ("RATELIMIT.ADD", 266)
    ∷ ("FETCH_OR_COMPUTE", 267)
    ∷ ("FETCH_OR_COMPUTE_RESULT", 268)
    ∷ ("FETCH_OR_COMPUTE_ERROR", 269)
    ∷ ("HSET", 272)
    ∷ ("HGET", 273)
    ∷ ("HMGET", 274)
    ∷ ("HGETALL", 275)
    ∷ ("LPUSH", 288)
    ∷ ("RPUSH", 289)
    ∷ ("LPOP", 290)
    ∷ ("RPOP", 291)
    ∷ ("LRANGE", 292)
    ∷ ("SADD", 304)
    ∷ ("SREM", 305)
    ∷ ("SMEMBERS", 306)
    ∷ ("SISMEMBER", 307)
    ∷ ("ZADD", 320)
    ∷ ("ZREM", 321)
    ∷ ("ZRANGE", 322)
    ∷ ("ZSCORE", 323)
    ∷ ("CLUSTER.HEALTH", 769)
    ∷ ("CLUSTER.STATS", 770)
    ∷ ("CLUSTER.KEYSLOT", 771)
    ∷ ("CLUSTER.SLOTS", 772)
    ∷ ("CLUSTER.STATUS", 773)
    ∷ ("CLUSTER.JOIN", 774)
    ∷ ("CLUSTER.LEAVE", 775)
    ∷ ("CLUSTER.FAILOVER", 776)
    ∷ ("CLUSTER.PROMOTE", 777)
    ∷ ("CLUSTER.DEMOTE", 778)
    ∷ ("CLUSTER.ROLE", 779)
    ∷ ("FERRICSTORE.KEY_INFO", 780)
    ∷ ("FERRICSTORE.CONFIG", 781)
    ∷ ("FERRICSTORE.HOTNESS", 782)
    ∷ ("FERRICSTORE.METRICS", 783)
    ∷ ("FERRICSTORE.BLOBGC", 784)
    ∷ ("CLUSTER.FEATURES", 785)
    ∷ ("CLUSTER.FEATURES.RAISE", 786)
    ∷ ("FLOW.CREATE", 513)
    ∷ ("FLOW.GET", 514)
    ∷ ("FLOW.CLAIM_DUE", 515)
    ∷ ("FLOW.COMPLETE", 516)
    ∷ ("FLOW.TRANSITION", 517)
    ∷ ("FLOW.RETRY", 518)
    ∷ ("FLOW.FAIL", 519)
    ∷ ("FLOW.CANCEL", 520)
    ∷ ("FLOW.EXTEND_LEASE", 521)
    ∷ ("FLOW.HISTORY", 522)
    ∷ ("FLOW.VALUE.PUT", 523)
    ∷ ("FLOW.VALUE.MGET", 524)
    ∷ ("FLOW.SIGNAL", 525)
    ∷ ("FLOW.CREATE_MANY", 527)
    ∷ ("FLOW.COMPLETE_MANY", 528)
    ∷ ("FLOW.TRANSITION_MANY", 529)
    ∷ ("FLOW.RETRY_MANY", 530)
    ∷ ("FLOW.FAIL_MANY", 531)
    ∷ ("FLOW.CANCEL_MANY", 532)
    ∷ ("FLOW.RECLAIM", 533)
    ∷ ("FLOW.REWIND", 534)
    ∷ ("FLOW.INFO", 540)
    ∷ ("FLOW.POLICY.SET", 542)
    ∷ ("FLOW.POLICY.GET", 543)
    ∷ ("FLOW.SPAWN_CHILDREN", 544)
    ∷ ("FLOW.RETENTION_CLEANUP", 545)
    ∷ ("FLOW.STEP_CONTINUE", 546)
    ∷ ("FLOW.START_AND_CLAIM", 547)
    ∷ ("FLOW.RUN_STEPS_MANY", 548)
    ∷ ("FLOW.SCHEDULE.CREATE", 549)
    ∷ ("FLOW.SCHEDULE.GET", 550)
    ∷ ("FLOW.SCHEDULE.DELETE", 551)
    ∷ ("FLOW.SCHEDULE.FIRE_DUE", 552)
    ∷ ("FLOW.SCHEDULE.LIST", 553)
    ∷ ("FLOW.SCHEDULE.FIRE", 554)
    ∷ ("FLOW.SCHEDULE.PAUSE", 555)
    ∷ ("FLOW.SCHEDULE.RESUME", 556)
    ∷ ("FLOW.STATS", 557)
    ∷ ("FLOW.ATTRIBUTES", 558)
    ∷ ("FLOW.ATTRIBUTE_VALUES", 559)
    ∷ ("FLOW.QUERY", 561)
    ∷ ("FLOW.EFFECT.RESERVE", 576)
    ∷ ("FLOW.EFFECT.CONFIRM", 577)
    ∷ ("FLOW.EFFECT.FAIL", 578)
    ∷ ("FLOW.EFFECT.COMPENSATE", 579)
    ∷ ("FLOW.EFFECT.GET", 580)
    ∷ ("FLOW.GOVERNANCE.LEDGER", 581)
    ∷ ("FLOW.APPROVAL.REQUEST", 582)
    ∷ ("FLOW.APPROVAL.APPROVE", 583)
    ∷ ("FLOW.APPROVAL.REJECT", 584)
    ∷ ("FLOW.APPROVAL.GET", 585)
    ∷ ("FLOW.CIRCUIT.OPEN", 586)
    ∷ ("FLOW.CIRCUIT.CLOSE", 587)
    ∷ ("FLOW.CIRCUIT.GET", 588)
    ∷ ("FLOW.BUDGET.RESERVE", 589)
    ∷ ("FLOW.BUDGET.GET", 590)
    ∷ ("FLOW.LIMIT.LEASE", 591)
    ∷ ("FLOW.LIMIT.SPEND", 592)
    ∷ ("FLOW.LIMIT.RELEASE", 593)
    ∷ ("FLOW.LIMIT.GET", 594)
    ∷ ("FLOW.APPROVAL.LIST", 595)
    ∷ ("FLOW.GOVERNANCE.OVERVIEW", 596)
    ∷ ("FLOW.BUDGET.LIST", 597)
    ∷ ("FLOW.LIMIT.LIST", 598)
    ∷ ("FLOW.BUDGET.COMMIT", 599)
    ∷ ("FLOW.BUDGET.RELEASE", 600)
    ∷ []
