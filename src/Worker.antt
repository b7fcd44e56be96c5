-- ===== src/Worker.antt =====
-- The worker process: worker/job_queue.py and worker/main.py.
pub mod Queue
pub mod Process
