-- ===== src/Supervisor.antt =====
-- The supervisor of connector subprocesses: src/prow/connector/supervisor_state.py,
-- restart_policy.py, process.py, instance.py, supervisor.py, scheduler.py and duration.py.
pub mod Startup
pub mod Fleet
pub mod Tests
pub mod Duration
pub mod Health
pub mod Schedule
pub mod Instance
pub mod Process
pub mod State
pub mod Policy
