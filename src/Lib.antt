-- ===== src/Lib.antt =====
-- deptui: a verification development for deptui, the terminal interface that deploys NixOS hosts, and for
-- its agent, the daemon that watches git repositories and deploys the hosts when their revision moves.
--
-- The program's parts and the files that model them. The orchestrator (crates/deptui-agent/src/daemon.rs)
-- holds the agent's state, polls the watched refs, plans which hosts need a revision and spawns one run at
-- a time; the runner (crates/deptui-agent/src/runner.rs) takes a run through its hosts and gives back a
-- record, which the orchestrator folds into the state.
--   Prelude         numbers, lists, text, maps and results that the others share
--   Ssh             crates/deptui-core/src/ssh.rs
--   Flake           crates/deptui-core/src/flake.rs
--   Wire            crates/deptui-core/src/agentwire.rs: the types that the API shows
--   State           crates/deptui-agent/src/state.rs: `apply_outcome`, `push_run`; Load has `load`
--   Deploy          crates/deptui-core/src/deploy.rs: `DeployRequest::plan` and its parts
--   Config          crates/deptui-agent/src/config.rs: accessors, `parse_duration`, `validate`
--   Notify          crates/deptui-agent/src/notify.rs: `dispatch`
--   Effects         what the agent does to the world and hears from it: processes, deploys, notices
--   Gitwatch        crates/deptui-agent/src/gitwatch.rs: `ls_remote`, `ensure_checkout`, `is_ancestor`
--   Remote          crates/deptui-core/src/host.rs: `check_profile_up_to_date` and the reads over ssh
--   Runner          crates/deptui-agent/src/runner.rs: Guard has the first-encounter probe and the drift
--                   guard of `deploy_host`, Push the rest of it, Execute has `execute`
--   Daemon          crates/deptui-agent/src/daemon.rs: Poll has `request_poll` and `spawn_run`, Plan the
--                   choice of hosts, Finish `finish_run`, Control `kick`, `set_paused`, `approve` and
--                   cancel, Due the timers, Startup `new`, Report `status`, `history` and `run_log`, Handle `handle_cmd`
--   Tui             crates/deptui/src/app.rs: the `App` and its parts. Joblog has crates/deptui/src/joblog.rs,
--                   Log the bounded log, Search, Select and Visual the search, the cursors and the copy,
--                   Probes and Agent what checks and the agent's view start, Queue `request_deploy`,
--                   `run_confirmed` and `start_next_in_queue`, Seed `seed_plan_for`, Cancel
--                   `cancel_deploy`, Lines `handle_deploy_line`, Modal, Overrides and Passwords the keys of
--                   the popups, Keys, Commands and AgentKeys those of the two screens, Events the dispatch
--                   and `run`. Calm, Sound, Announced, Starts and Guarded are about the invariant under all
--                   of them; Batch, Failures, Selection, Shown, Matches and Unseen are about the queue, a
--                   failed deploy, the selected text, the lines shown, the search and the password
--   Tests           concrete inputs
--
-- The state is passed explicitly. An action of the runner (`Act`) maps a machine, which holds the calls
-- made so far and the captured log, to a result and a machine. The environment (`Env`) answers each call
-- by a function of all calls before it, so it may change its answers at any time, as the cancel flag and
-- a remote host do. A task of the daemon (`Task`) maps a system, which is the daemon with its machine, the
-- states it has written and the runs it has spawned. A run is spawned as its plan, and its record comes
-- back as the command `run_done`, at any later time and in any order with the other commands.
--
-- The screen's operations map an `App` to an `App`; what they send or start (deploys, probes, answers,
-- copies) is added to its field `effects`, the newest first, and a panic is the effect `panicked`. What an
-- operation hears back at once (the clipboard, the key directory, the clock, whether a task is over) is a
-- `World`, again by the effects so far. The lines of a deploy and the prompts of ssh come back as events,
-- in any order with the keys. Where the code computes an index in `i32`, the model uses an integer without
-- bound: the lists are far below 2^31. The terminal's help offset is a `u16` that stops at its ends.
--
-- All loops are structural recursion on lists, so no fuel is needed. Two machine integers are computed
-- with, and both have the wrap-around of `u64` written out: the durations of `parse_duration` and the
-- counter that numbers the runs. Instants are added without bound, where the code's `Instant` panics near
-- its end: `parse_duration` takes durations that long.
--
-- Every call of the environment returns, and a deploy's events are a finite list. A git process or a child
-- of the deploy engine that never ends, which the code would wait for, is outside the model.
--
-- Parameters: `git`, `ssh`, `nix` and the deploy engine are the environment; the JSON, TOML and cron
-- parsers are arguments. Not modelled: drawing, the mouse, what the screen does with the results of its
-- probes, the wiping of passwords from memory, the HTTP layer, the process engine behind a deploy, the
-- text of hooks and webhooks, the file of the state, the self-restart of the daemon and its start-up
-- validation, timeouts of processes other than the ssh probe.
pub mod Prelude
pub mod Ssh
pub mod Flake
pub mod Wire
pub mod State
pub mod Deploy
pub mod Config
pub mod Notify
pub mod Effects
pub mod Gitwatch
pub mod Remote
pub mod Runner
pub mod Daemon
pub mod Tui
pub mod Tests
