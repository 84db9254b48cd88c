-- ===== src/Batches.antt =====
-- app/bl/services/batches.py: the worker that runs a job, its start and the cells of its export.
pub mod Worker
pub mod Open
pub mod Finish
pub mod Service
pub mod Cells
pub mod Tests
