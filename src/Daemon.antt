-- ===== src/Daemon.antt =====
-- The life of the process: cmd/tasch/main.go (start), internal/daemon/stop.go, and what the master
-- opens and closes in internal/daemon/master.go.
pub mod Pid
pub mod Stop
pub mod Drain
pub mod Command
