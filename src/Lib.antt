-- ===== src/Lib.antt =====
-- CobbleCompanion: the durable parts of a companion's life and the rules that keep them right.
--
-- The program is a fleet of stateless nodes over one PostgreSQL database. A node answers a user's
-- turns, and beside them runs background work that any node may pick up: the jobs of a companion are
-- rows of a table, a node claims a companion for a lease, drains its due jobs and lets it go. What the
-- work costs is paid from the companion's two wallets, which feeding refills. A mission is long-running
-- work that an outside scheduler wakes. A user's connection claims the companion's room, and the newest
-- connection has it. A call of a tool with effects waits for the user's approval, unless an active
-- mission grants it. What the server fetches for a user is kept to public addresses. A turn itself is
-- a loop of model calls and tool calls that ends in a reply, a block or an error.
-- A bot on Discord carries turns too, for the owner that linked it, and the wakes of missions come in by
-- it. A source that is read is cut into sections by a model; what the companion has become is compared
-- with a stored mark, and it makes moves of its own while its user is away.
--
-- The modules, with the code that each is about (paths from the repository's root):
--   Base            lists, tables, Boolean tests and lemmas that the others share
--   Jobs.Tables     db/src/schema.ts (jobs, companion_claims), packages/shared/src/contracts.ts
--   Jobs.Queue      packages/core/src/jobs/job-queue.ts, one function for each method of
--                   DrizzleJobQueue: enqueue, claim_next_companion, try_claim, next_due_job, mark_done,
--                   mark_failed, renew_claim, release_claim, pending_count_by_type
--   Jobs.Processor  packages/core/src/jobs/job-processor.ts: run_job, drain (drainCompanion), the
--                   heartbeat (beat, renewed, renewal_error) and the requesters
--   Jobs.Pool       packages/core/src/jobs/job-processor.ts: drain_loop, and the pool
--                   (start, nudge, enqueueAndNudge as begin_enqueue and settle_enqueue, close)
--   Vitality        packages/core/src/quota/vitality-store.ts: get_balance, is_empty, spend, add,
--                   meter_spend
--   Feeding         packages/core/src/growth/food-store.ts and economy.ts: load, consume, feed
--   Missions.Store  packages/core/src/mission/mission-store.ts: create, activate, set_status,
--                   reconcile_jobs, the lookups and the journal
--   Missions.Service  packages/core/src/mission/mission-service.ts (stop) and mission-reconcile.ts
--                   (reconcile_mission_jobs, route_mission_advance)
--   Missions.Start  packages/core/src/mission/start-mission-tool.ts: start_mission
--   Embodiment      packages/core/src/embodiment/store.ts (claim, renew, holds, release, current) and
--                   presence.ts (record_heartbeat, record_activity, get_presence)
--   Approvals.Tools  packages/core/src/tools/registry.ts and dispatch.ts: get_tool, dispatch_tool
--   Approvals.Store  packages/core/src/tools/proposal-store.ts and lead-store.ts
--   Approvals.Gate  packages/core/src/tools/gate.ts: approval_gate
--   Approvals.Confirm  packages/api/src/proposals/confirm-proposal.ts (confirm_proposal) and the
--                   rejection of packages/api/src/ws/methods/proposals.ts
--   UrlGuard        packages/core/src/ingestion/url-guard.ts: is_blocked_ip_address,
--                   assert_public_http_url, guarded_lookup
--
--   Harness         packages/core/src/harness/harness.ts and hooks.ts, packages/core/src/usage.ts: the
--                   messages and the bill (Messages), the effects of a turn (Effects), the finish paths
--                   (Turn: finish, finish_blocked, exhausted, debit), the loop (Loop: run_loop), and
--                   run_turn and continue_after_approval (Entry)
--   Discord.Config  db/src/discord-config-store.ts: upsert, reissue_link_code, bind_owner, delete
--   Discord.Trigger  packages/discord/src/parse-trigger.ts, and the text that
--                   packages/core/src/mission/start-mission-tool.ts arms a wake with
--   Discord.Router  packages/discord/src/router.ts: handle_direct_message, handle_guild_trigger,
--                   handle_link, handle_slash_command
--   Ingestion.Untrusted  packages/core/src/text/untrusted.ts: strip_sentinels
--   Ingestion.Segmenter  packages/core/src/ingestion/segmenter.ts: segment_paragraphs,
--                   batch_paragraphs, parse_boundaries, fallback_boundaries
--   Growth.Mark     packages/core/src/growth/growth-store.ts: get_snapshot, advance
--   Growth.Service  packages/core/src/growth/service.ts: recompute, with announce as notes_of and
--                   posted; Growth.Racing has recomputes that run at the same time
--   Motivation.Presence  packages/core/src/motivation/presence.ts and presence-store.ts
--   Motivation.Arbitration  packages/core/src/motivation/arbitration.ts (decide_move) and
--                   packages/core/src/greeting/decide.ts (decide_greeting)
--
-- How the code corresponds to the model:
--   * An id is a natural number, except where its text is compared; a text is the list of its UTF-16
--     units. A time is a natural number of milliseconds, and a clock that the code reads is an
--     argument: the database's clock and a node's clock are separate ones.
--   * A table is the list of its rows or, where the code reads it by its key only, a function of the
--     key. A single SQL statement reads and writes at once, as the database runs it; what happens
--     between two statements of one operation is an argument of the model or a step of a trace. Where
--     nobody acts in between, as in a stop and in the taking of a food, the definition says so.
--   * A number of tokens is whole, negative or not finite; fractions above zero are left out.
--   * An error that the code throws is a constructor of the result.
--   * A drain of a companion takes its rounds from a list, one for each turn of the loop, that says
--     what the clocks, the other nodes and the handler do in it, and a loop of
--     the pool takes its visits likewise. Where nobody interferes, the clock stands still and the handlers
--     leave the tables alone, one round for each due job and one more are enough, and one visit for
--     each job that can be handed out and one more.
--   * The surroundings of a turn (the model, the tools, the stores) are an environment of calls over a
--     world that they change; a run collects the events that it sends, the rows that it writes and the
--     debits that it asks for, those that fail included. A stream of the model is finite. A consumer may drop the turn at any event. The fuel of
--     the loop is the limit of its iterations and one more.
--   * A regular expression is a function that matches as it does, greedily. A loop that strips
--     prefixes or sentinels has fuel for each unit of its text, since a pass that goes on shortens it.
--   * A recompute of the growth is two steps, reading the mark and advancing it, and a race of them is
--     any list of such steps. The companion's row is made once and not removed in a race.
--   * Levels and weights of drives are whole thousandths, and their product is exact.
--   * The sections that a model answers are given as read from its JSON.
--
-- Not modelled: HTTP and WebSocket transport, the web client's views, the prompts and the calls of
-- language models, object storage, logging, and the timers that call the functions above.
pub mod Approvals
pub mod Base
pub mod Discord
pub mod Embodiment
pub mod Feeding
pub mod Growth
pub mod Harness
pub mod Ingestion
pub mod Jobs
pub mod Missions
pub mod Motivation
pub mod UrlGuard
pub mod Vitality
