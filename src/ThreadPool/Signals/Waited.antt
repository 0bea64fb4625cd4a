-- ===== src/ThreadPool/Signals/Waited.antt =====
-- src/tpool.c: what a call of `ccpool_wait` finds done when it returns, with the threads that sleep.
