-- ===== src/Skills.antt =====
-- skills: the authorization model that the skills document. Its policy evaluator and its audit log are modelled.
pub mod EvalPolicy
pub mod AuditLog
pub mod Examples
