-- ===== src/Eval.antt =====
-- eval/run_eval.py: the golden cases against the pipeline's answers.
pub mod Summary
pub mod Gate
pub mod Golden
