-- ===== src/Profiler.antt =====
-- pkg/profiler/profiler.go and profiler_linux.go: the GPUs of a machine, read from the outputs of
-- nvidia-smi and rocm-smi and from sysfs, and the advertisement of a node. Each output is an argument,
-- none where the command or the file is missing or fails.
pub mod Text
pub mod Gpus
pub mod Ad
pub mod Lists
