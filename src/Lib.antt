-- ===== src/Lib.antt =====
-- The coordination core of the Wingmen orchestrator.
--
-- The orchestrator runs agents on several hosts around one Postgres database. The parts modelled
-- here decide who may act: leases say which body holds the pens, a dispatcher claims jobs, a daemon
-- answers routine messages under a kill switch, a drain worker executes granted rulings, a merge
-- command waits for green checks, watchdogs end callers that loop, nudge agents that are stuck and
-- clear those that are full, a notifier wakes agents and tells the operator of their messages, a
-- council executes specs behind three gates, a gateway delivers what is queued for Telegram, and
-- gates stand before what cannot be undone. They interact through rows: a lease, a job, a message,
-- a decision.
--
-- Prelude        numbers, texts, lists and the conditional; SQL's three-valued comparisons. A text that
--                is searched is a list of code points; case is that of ASCII.
-- Lease          Row: a lease row. Hub: scripts/lib/orch_lease.py. FleetHealth:
--                scripts/lib/fleet_health_lease.py. The functions have the source's names; `take_sql`
--                and `renew_sql` are the UPDATE statements of `cmd_take` and `cmd_renew`, on the one
--                row that they can meet.
-- CaiDaemon      cc_cai_daemon/. Classifier: classifier.py, a confidence in hundredths. World: what the
--                daemon touches, as state passing; audit.py. KillSwitch: kill_switch.py. Handlers:
--                silent_lane.py and escalator.py. Cycle: `_run_one_cycle` of main.py.
-- SafeMerge      scripts/lib/safe_merge.py.
-- Outbox         nervous_system/tg_out.py. Chunks: `chunk_text`. Queue: the table of migrations 014 and 015
--                and the claim of `drain_once`. Telegram: `_resolve`, `_send_text`, `_send_file`. Delivery:
--                `deliver_one` and the pass. Drainers: several of them on one table, as a step relation.
-- Gates          Authorization: scripts/lib/require_verified_authorization.py. AuthWrite:
--                scripts/lib/auth_write_gate.py. Boundaries: scripts/lib/fleet_health_boundaries.py.
-- SqlLint        scripts/check_additive_migration.py: `_split_statements`, and `lineno` of `scan_file`.
-- Wedge          nervous_system/lane_wedge_watchdog.py: the signals and `evaluate`; Scan: `_recover` and what
--                `run` does for one agent; Run: `run` with its state file.
-- ContextReset   scripts/context_health_watchdog.py: `_do_reset`, `_run_checkpoint_for`, and `run_executor` for
--                one body.
-- Alerts         nervous_system/paused_job_escalation.py.
-- Stalls         nervous_system/queue_stall_detector.py.
-- Bus            Wake: nervous_system/agent_wake.py. Routing and Poll: nervous_system/agent_messages_poll.py.
--                Realtime: nervous_system/agent_messages_realtime.py, up to the end of one message.
-- Council        World and Executor: nervous_system/council_executor.py, for one session. Commands:
--                `cmd_execute` and `cmd_concur` of council_commands.py.
-- Sla            scripts/priority_sla_watchdog.py. Fetch: the filters of `fetch_actionable`; the parent: `run`.
-- LongCaller     nervous_system/long_caller_watchdog.py (Decision), and of watchdog.py
--                `_long_caller_sweep` (Sweep) and `MacStudioEndpointState` (Endpoint).
-- Jobs           Table: the rows of `jobs` and the statements on them. Dispatch: `pick_next_jobs`,
--                `recover_stale_jobs` and `cleanup_zombie_jobs` of wingmen_orch.py. Run: what `run_job`
--                writes at the end. Retry: nervous_system/paused_jobs_retry_policy.py.
-- Drain          ihsanos_drain/. Grant: grant.py, granted_work.py, token_budget.py. Refs and Runner:
--                runner.py. Cycle: main.py.
--
-- A call to the outside is an input. In the daemon, in the sweeps of the watchdog and in the alerts
-- an oracle says of each call whether it succeeds; a theorem on them holds for every pattern of
-- failures, unless its hypothesis is that all calls succeed. In the leases the row that a command
-- reads and the one that its UPDATE meets are two arguments, and so are, in the dispatcher, the
-- table of the candidates and that of the claims. In the drain and in the merge command the results
-- of the processes are arguments. Times are natural numbers in one unit. Every function is
-- structurally recursive, but the loop of `chunk_text`, whose fuel is the length of the text: each round
-- takes at least one character; and the search of `lineno`, whose fuel is the number of lines: each round
-- halves what is left; and the wait of the council, whose fuel is eleven looks: each takes thirty of its 300
-- seconds at least. The settings of the wedge watchdog are parameters, and so are redaction,
-- the environment, the files and Telegram in the outbox, the order in which its database returns the rows of a
-- claim, and which of the statements of a delivery fail. The polls and the commands of the council come one
-- after the other, and what writes a session besides them is left out.
--
-- Not modelled: texts of reports and of log lines, the commands that only print, the loops that
-- sleep between cycles, and the parts of the repository that talk to chat, to models and to
-- processes.
pub mod Prelude
pub mod Lease
pub mod CaiDaemon
pub mod SafeMerge
pub mod Alerts
pub mod LongCaller
pub mod Jobs
pub mod Drain
pub mod Outbox
pub mod Wedge
pub mod Gates
pub mod SqlLint
pub mod ContextReset
pub mod Stalls
pub mod Bus
pub mod Council
pub mod Sla
